-- ===== src/Command/Cancel.antt =====
-- What a cancellation does to the tables.
use resource_query.Prelude.{
  ◌||◌, ℕ, pos, ◌≡◌, [], ◌∷◌, true, false, lookup, contains, nat_key, string_key, ◌==◌,
  lookup-insert, lookup-erase, arith, Option-cases, inl, inr,
}
use resource_query.Command.{print, nonexistent_job, cancelled, Session, Ctx, do_remove, cancel_job}
use resource_query.Command.Tables.{is_cancelled, IsSound}

module _ (session : Session) where
  cancel_gone :
      (ctx : Ctx session) (k : ℕ)
      → IsSound ctx
      → (session.remove ctx.traverser k).1 ≡ pos 0
      → (contains k (cancel_job session ctx k).allocations ≡ false)
        × (contains k (cancel_job session ctx k).reservations ≡ false)
  unfolding cancel_job do_remove contains
  cancel_gone ctx k v r = ground (
    arith,
    r,
    (v.sound k).allocation,
    (v.sound k).reservation,
    lookup-erase k k ctx.allocations,
    lookup-erase k k ctx.reservations,
  )

  cancel_others :
      (ctx : Ctx session) (k j : ℕ)
      → (k == j) ≡ false
      → lookup j (cancel_job session ctx k).jobs ≡ lookup j ctx.jobs
  unfolding cancel_job do_remove
  cancel_others ctx k j h = elim (Option-cases (lookup k ctx.jobs)) [
    | inl gone ↦ ground (arith, gone)
    | inr (job, here) ↦
        ground (arith, here, lookup-insert k j (record job { state = cancelled }) ctx.jobs)
  ]

  cancel_state :
      (ctx : Ctx session) (k : ℕ)
      → IsSound ctx
      → (session.remove ctx.traverser k).1 ≡ pos 0
      → (contains k ctx.allocations || contains k ctx.reservations) ≡ true
      → is_cancelled (lookup k (cancel_job session ctx k).jobs) ≡ true
  unfolding cancel_job do_remove contains
  cancel_state ctx k v r active = elim (Option-cases (lookup k ctx.jobs)) [
    | inl gone ↦ ground (arith, gone, (v.sound k).allocation, (v.sound k).reservation)
    | inr (job, here) ↦
        ground (arith, r, here, lookup-insert k k (record job { state = cancelled }) ctx.jobs)
  ]

  cancel_absent :
      (ctx : Ctx session) (k : ℕ)
      → contains k ctx.allocations ≡ false
      → contains k ctx.reservations ≡ false
      → cancel_job session ctx k ≡ print (nonexistent_job k ∷ []) ctx
  unfolding cancel_job
  cancel_absent ctx k a b = rw (cancel_job, a, b)

  -- In a session with sound tables, a removal that succeeds takes an active job out of both tables and
  -- marks it as cancelled, and leaves the record of every other job as it was; a second cancellation of
  -- it finds no such job and does not ask the traverser.
  pub cancel_twice :
      (ctx : Ctx session) (k : ℕ)
      → IsSound ctx
      → (session.remove ctx.traverser k).1 ≡ pos 0
      → (contains k ctx.allocations || contains k ctx.reservations) ≡ true
      → let after = cancel_job session ctx k in
        (is_cancelled (lookup k after.jobs) ≡ true)
        × (contains k after.allocations ≡ false)
        × (contains k after.reservations ≡ false)
        × ((j : ℕ) → (k == j) ≡ false → lookup j after.jobs ≡ lookup j ctx.jobs)
        × (cancel_job session after k ≡ print (nonexistent_job k ∷ []) after)
  cancel_twice ctx k v r active =
      let gone = cancel_gone ctx k v r in
      (
        cancel_state ctx k v r active,
        gone.0,
        gone.1,
        cancel_others ctx k,
        cancel_absent (cancel_job session ctx k) k gone.0 gone.1,
      )
