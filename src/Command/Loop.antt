-- ===== src/Command/Loop.antt =====
-- The command loop keeps the tables right.
use resource_query.Prelude.{
  All, length, ◌+◌, ◌≤◌, ◌<◌, ◌≡◌, refl, String, List, [], ◌∷◌, Bool, true, false, Option, some,
  nat_key, string_key, arith, Option-cases, inl, inr,
}
use resource_query.ResourceData.Color.{u64}
use resource_query.Command.{
  cmd_help, cmd_list, cmd_cat, find_cmd, match, cancel, list, info, cat, help, quit, Session,
  Command, Ctx, do_remove, print_schedule_info, match_job, cmd_match, cancel_job, cmd_cancel,
  execute, control_step, control_loop,
}
use resource_query.Command.Tables.{
  IsSound, same-IsSound, cmd_match-IsSound, cmd_cancel-IsSound, info_tables,
}

module _ (session : Session) where
  -- The counter goes up by one at most.
  abbrev StepSound : Ctx session → Option (Ctx session × Bool) → Type 0
  StepSound ctx r =
      (q : Ctx session × Bool) × (r ≡ some q)
      × IsSound q.0
      × (q.0.jobid_counter ≤ ctx.jobid_counter + 1)

  match_counter :
      (ctx : Ctx session) (args : List String)
      → (cmd_match session ctx args).jobid_counter ≤ ctx.jobid_counter + 1
  unfolding cmd_match match_job print_schedule_info
  match_counter ctx (x ∷ sub ∷ fn ∷ []) = ground arith
  match_counter ctx [] = omega arith
  match_counter ctx (x ∷ []) = omega arith
  match_counter ctx (x ∷ y ∷ []) = omega arith
  match_counter ctx (x ∷ y ∷ z ∷ w ∷ r) = omega arith

  cancel_counter :
      (ctx : Ctx session) (args : List String)
      → (cmd_cancel session ctx args).jobid_counter ≡ ctx.jobid_counter
  unfolding cmd_cancel cancel_job do_remove
  cancel_counter ctx (x ∷ arg ∷ []) = ground arith
  cancel_counter ctx [] = refl
  cancel_counter ctx (x ∷ []) = refl
  cancel_counter ctx (x ∷ y ∷ z ∷ r) = refl

  same-StepSound :
      (c d : Ctx session) (b : Bool)
      → d.jobs ≡ c.jobs
      → d.allocations ≡ c.allocations
      → d.reservations ≡ c.reservations
      → d.jobid_counter ≡ c.jobid_counter
      → IsSound c
      → StepSound c (some (d, b))
  same-StepSound c d b p q r e v = ((d, b), refl, same-IsSound session c d p q r e v, omega arith)

  help_tables :
      (ctx : Ctx session) (args : List String)
      → ((cmd_help session ctx args).jobs ≡ ctx.jobs)
        × ((cmd_help session ctx args).allocations ≡ ctx.allocations)
        × ((cmd_help session ctx args).reservations ≡ ctx.reservations)
        × ((cmd_help session ctx args).jobid_counter ≡ ctx.jobid_counter)
  unfolding cmd_help
  help_tables ctx (x ∷ y ∷ []) = (refl, refl, refl, refl)
  help_tables ctx [] = (refl, refl, refl, refl)
  help_tables ctx (x ∷ []) = (refl, refl, refl, refl)
  help_tables ctx (x ∷ y ∷ z ∷ r) = (refl, refl, refl, refl)

  -- Whether `cmd_cat`, which reads its argument without a test, has one.
  abbrev pub HasFile : Command → List String → Type 0
  HasFile cat (x ∷ fn ∷ r) = Unit
  HasFile cat _ = ⊥
  HasFile _ _ = Unit

  execute-StepSound :
      (ctx : Ctx session) (c : Command) (args : List String)
      → HasFile c args
      → ctx.jobid_counter + 1 < u64
      → IsSound ctx
      → StepSound ctx (execute session ctx c args)
  unfolding execute cmd_list cmd_cat
  execute-StepSound ctx match args h b v = (
    (cmd_match session ctx args, true),
    refl,
    cmd_match-IsSound session ctx args b v,
    match_counter ctx args,
  )
  execute-StepSound ctx cancel args h b v = (
    (cmd_cancel session ctx args, true),
    refl,
    cmd_cancel-IsSound session ctx args v,
    omega (arith, cancel_counter ctx args),
  )
  execute-StepSound ctx list args h b v = same-StepSound ctx _ true refl refl refl refl v
  execute-StepSound ctx info args h b v =
      let t = info_tables session ctx args in same-StepSound ctx _ true t.0 t.1 t.2 t.3 v
  execute-StepSound ctx cat (x ∷ fn ∷ r) h b v = same-StepSound ctx _ true refl refl refl refl v
  execute-StepSound ctx cat [] h b v = absurd h
  execute-StepSound ctx cat (x ∷ []) h b v = absurd h
  execute-StepSound ctx help args h b v =
      let t = help_tables ctx args in same-StepSound ctx _ true t.0 t.1 t.2 t.3 v
  execute-StepSound ctx quit args h b v = same-StepSound ctx _ false refl refl refl refl v

  abbrev pub GoodLine : List String → Type 0
  GoodLine [] = Unit
  GoodLine (cmd ∷ args) = (c : Command) → find_cmd cmd ≡ some c → HasFile c (cmd ∷ args)

  control_step-StepSound :
      (ctx : Ctx session) (line : List String)
      → GoodLine line
      → ctx.jobid_counter + 1 < u64
      → IsSound ctx
      → StepSound ctx (control_step session ctx line)
  unfolding control_step
  control_step-StepSound ctx [] g b v = same-StepSound ctx ctx true refl refl refl refl v
  control_step-StepSound ctx (cmd ∷ args) g b v = elim (Option-cases (find_cmd cmd)) [
    | inl e ↦ rw (control_step, e) (same-StepSound ctx ctx true refl refl refl refl v)
    | inr (c, e) ↦ rw (control_step, e) (execute-StepSound ctx c (cmd ∷ args) (g c e) b v)
  ]

  -- After any lines, in which `cat` has its argument and which are not so many that the job numbers
  -- wrap, the session is there, and the tables of allocations and reservations hold exactly the jobs
  -- of those states, whatever the traverser answers.
  pub control_loop-IsSound :
      (ctx : Ctx session) (lines : List (List String))
      → IsSound ctx
      → All GoodLine lines
      → ctx.jobid_counter + length lines < u64
      → (ctx' : Ctx session) × (control_loop session ctx lines ≡ some ctx') × IsSound ctx'
  unfolding control_loop
  control_loop-IsSound ctx [] v g b = (ctx, refl, v)
  control_loop-IsSound ctx (line ∷ lines) v g b =
      let (q, run, w, k) = control_step-StepSound ctx line g.0 (omega arith) v in
      go q run w k (control_loop-IsSound q.0 lines w g.1 (omega arith))
    where
      go :
          (q : Ctx session × Bool)
          → control_step session ctx line ≡ some q
          → IsSound q.0
          → q.0.jobid_counter ≤ ctx.jobid_counter + 1
          → (ctx' : Ctx session) × (control_loop session q.0 lines ≡ some ctx') × IsSound ctx'
          → (ctx' : Ctx session) × (control_loop session ctx (line ∷ lines) ≡ some ctx')
            × IsSound ctx'
      go (c, true) run w k (r, end, u) = (r, rw (control_loop, run) end, u)
      go (c, false) run w k rest = (c, rw (control_loop, run), w)
