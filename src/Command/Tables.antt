-- ===== src/Command/Tables.antt =====
-- The tables of the session agree with the states of the jobs.
use resource_query.Prelude.{
  ℕ, ◌+◌, ◌≤◌, ◌<◌, ℤ, pos, ◌≡◌, refl, String, List, [], ◌∷◌, Bool, true, false, Option, none, some,
  lookup, contains, nat_key, string_key, ◌=?◌, if◌then◌else◌, lookup-insert, lookup-erase, arith,
  Option-cases, Bool-cases, inl, inr,
}
use resource_query.ResourceData.Color.{u64}
use resource_query.Traverse.Traverser.{MatchOp, match_allocate, match_allocate_orelse_reserve}
use resource_query.Command.{
  cmd_info, allocated, reserved, cancelled, JobInfo, Session, Context, Ctx, do_remove,
  print_schedule_info, match_loaded, Loaded, loaded, io_failure, parse_failure, match_job,
  cmd_match, cancel_job, cmd_cancel, is_zero,
}

abbrev pub is_allocated : Option JobInfo → Bool
is_allocated none = false
is_allocated (some job) = elim job.state [ allocated ↦ true | _ ↦ false ]

abbrev pub is_reserved : Option JobInfo → Bool
is_reserved none = false
is_reserved (some job) = elim job.state [ reserved ↦ true | _ ↦ false ]

abbrev pub is_cancelled : Option JobInfo → Bool
is_cancelled none = false
is_cancelled (some job) = elim job.state [ cancelled ↦ true | _ ↦ false ]

-- The tables' entries for one job are what its state says, and no job has a number that is still to
-- come.
pub record JobSound {T : Type 0} (ctx : Context T) (j : ℕ) : Type 0 where
  pub allocation : contains j ctx.allocations ≡ is_allocated (lookup j ctx.jobs)
  pub reservation : contains j ctx.reservations ≡ is_reserved (lookup j ctx.jobs)
  pub fresh : ctx.jobid_counter ≤ j → lookup j ctx.jobs ≡ none

pub record IsSound {T : Type 0} (ctx : Context T) : Type 0 where
  pub sound : (j : ℕ) → JobSound ctx j

module _ (session : Session) where
  print_schedule_info-IsSound :
      (ctx : Ctx session) (fn : String) (matched : Bool) (at : ℤ)
      → ctx.jobid_counter + 1 < u64
      → IsSound ctx
      → IsSound (print_schedule_info session ctx ctx.jobid_counter fn matched at)
  unfolding print_schedule_info contains
  print_schedule_info-IsSound ctx fn matched at b v = record {
    sound = λ j.
        let s = v.sound j in
        let k = ctx.jobid_counter in
        ground (
          arith,
          s.allocation,
          s.reservation,
          s.fresh,
          lookup-insert k j
              (record {
                jobid = k;
                state = if is_zero at then allocated else reserved;
                scheduled_at = at;
                jobspec_fn = fn;
              })
              ctx.jobs,
          lookup-insert k j k ctx.allocations,
          lookup-insert k j k ctx.reservations,
        );
  }

  -- A change that leaves the tables and the counter alone.
  pub same-IsSound :
      (c d : Ctx session)
      → d.jobs ≡ c.jobs
      → d.allocations ≡ c.allocations
      → d.reservations ≡ c.reservations
      → d.jobid_counter ≡ c.jobid_counter
      → IsSound c
      → IsSound d
  same-IsSound c d p q r e v = record {
    sound = λ j. record {
      allocation = rw (p, q) (v.sound j).allocation;
      reservation = rw (p, r) (v.sound j).reservation;
      fresh = rw (p, e) (v.sound j).fresh;
    };
  }

  match_job-IsSound :
      (ctx : Ctx session) (op : MatchOp) (fn : String)
      → ctx.jobid_counter + 1 < u64
      → IsSound ctx
      → IsSound (match_job session ctx op fn)
  unfolding match_job
  match_job-IsSound ctx op fn b v = go (session.load fn)
    where
      go : (l : Loaded) → IsSound (match_loaded session ctx op fn l)
      go io_failure = same-IsSound ctx _ refl refl refl refl v
      go parse_failure = same-IsSound ctx _ refl refl refl refl v
      go (loaded job) =
          let r = session.run ctx.traverser job op ctx.jobid_counter (pos 0) in
          print_schedule_info-IsSound (record ctx { traverser = r.0 }) fn (is_zero r.1) r.2 b
            (same-IsSound ctx _ refl refl refl refl v)

  pub cmd_match-IsSound :
      (ctx : Ctx session) (args : List String)
      → ctx.jobid_counter + 1 < u64
      → IsSound ctx
      → IsSound (cmd_match session ctx args)
  unfolding cmd_match
  cmd_match-IsSound ctx (x ∷ sub ∷ fn ∷ []) b v = elim (Bool-cases (sub =? "allocate")) [
    | inl e ↦ rw e (match_job-IsSound ctx match_allocate fn b v)
    | inr e ↦ elim (Bool-cases (sub =? "allocate_orelse_reserve")) [
      | inl f ↦ rw (e, f) (match_job-IsSound ctx match_allocate_orelse_reserve fn b v)
      | inr f ↦ rw (e, f) (same-IsSound ctx _ refl refl refl refl v)
    ]
  ]
  cmd_match-IsSound ctx [] b v = same-IsSound ctx _ refl refl refl refl v
  cmd_match-IsSound ctx (x ∷ []) b v = same-IsSound ctx _ refl refl refl refl v
  cmd_match-IsSound ctx (x ∷ y ∷ []) b v = same-IsSound ctx _ refl refl refl refl v
  cmd_match-IsSound ctx (x ∷ y ∷ z ∷ w ∷ r) b v = same-IsSound ctx _ refl refl refl refl v

  cancel_job-IsSound :
      (ctx : Ctx session) (k : ℕ) → IsSound ctx → IsSound (cancel_job session ctx k)
  unfolding cancel_job do_remove contains
  cancel_job-IsSound ctx k v = record {
    sound = λ j.
        let s = v.sound j in
        let sk = v.sound k in
        elim (Option-cases (lookup k ctx.jobs)) [
          | inl gone ↦
              ground
                (arith, s.allocation, s.reservation, s.fresh, sk.allocation, sk.reservation, gone)
          | inr (job, here) ↦ ground (
            arith,
            here,
            s.allocation,
            s.reservation,
            s.fresh,
            sk.allocation,
            sk.reservation,
            lookup-insert k j (record job { state = cancelled }) ctx.jobs,
            lookup-erase k j ctx.allocations,
            lookup-erase k j ctx.reservations,
          )
        ];
  }

  pub cmd_cancel-IsSound :
      (ctx : Ctx session) (args : List String) → IsSound ctx → IsSound (cmd_cancel session ctx args)
  unfolding cmd_cancel
  cmd_cancel-IsSound ctx (x ∷ arg ∷ []) v = cancel_job-IsSound ctx (session.strtoll arg) v
  cmd_cancel-IsSound ctx [] v = same-IsSound ctx _ refl refl refl refl v
  cmd_cancel-IsSound ctx (x ∷ []) v = same-IsSound ctx _ refl refl refl refl v
  cmd_cancel-IsSound ctx (x ∷ y ∷ z ∷ r) v = same-IsSound ctx _ refl refl refl refl v

  pub info_tables :
      (ctx : Ctx session) (args : List String)
      → ((cmd_info session ctx args).jobs ≡ ctx.jobs)
        × ((cmd_info session ctx args).allocations ≡ ctx.allocations)
        × ((cmd_info session ctx args).reservations ≡ ctx.reservations)
        × ((cmd_info session ctx args).jobid_counter ≡ ctx.jobid_counter)
  unfolding cmd_info
  info_tables ctx [] = (refl, refl, refl, refl)
  info_tables ctx (x ∷ []) = (refl, refl, refl, refl)
  info_tables ctx (x ∷ y ∷ []) = ground arith
  info_tables ctx (x ∷ y ∷ z ∷ r) = (refl, refl, refl, refl)
