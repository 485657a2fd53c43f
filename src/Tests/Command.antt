-- ===== src/Tests/Command.antt =====
-- A session at fixed inputs, over a traverser that has an answer for everything.
use resource_query.Prelude.{
  ℕ, pos, ◌≡◌, refl, String, List, [], ◌∷◌, Bool, true, false, some, lookup, contains, nat_key,
  ◌==◌, arith, if◌then◌else◌,
}
use resource_query.Command.{
  Session, loaded, allocated, print, nonexistent_job, cancel_job, control_loop, Ctx, find_cmd,
  match, cancel, list, info, cat, help, quit, Command,
}
use resource_query.Command.Tables.{IsSound, is_cancelled}
use resource_query.Command.Loop.{control_loop-IsSound, HasFile}
use resource_query.Command.Cancel.{cancel_twice}

-- Every match succeeds, now or 10 seconds later, in turn.
abbrev obliging : Session
obliging = record {
  Traverser = Bool;
  run = λ t job op jobid at. (true, pos 0, (if t then pos 10 else pos 0));
  remove = λ t jobid. (t, pos 0);
  clear_err_message = λ t. t;
  load = λ fn. loaded (record { version = 1; resources = []; tasks = []; attributes = [] });
  strtoll = λ s. 1;
  atoll = λ s. 1;
}

abbrev fresh_session : Ctx obliging
fresh_session = record {
  traverser = false;
  jobid_counter = 1;
  jobs = [];
  allocations = [];
  reservations = [];
  output = [];
}

fresh_session-IsSound : IsSound fresh_session
unfolding contains
fresh_session-IsSound = record {
  sound = λ j. record { allocation = refl; reservation = refl; fresh = λ h. refl };
}

abbrev lines : List (List String)
lines = ("match" ∷ "allocate" ∷ "job.yaml" ∷ []) ∷ ("cancel" ∷ "1" ∷ []) ∷ []

-- No line of the session is a `cat`.
match_line :
    (c : Command)
    → find_cmd "match" ≡ some c
    → HasFile obliging c ("match" ∷ "allocate" ∷ "job.yaml" ∷ [])
unfolding find_cmd
match_line cat e = cc
match_line match e = tt
match_line cancel e = tt
match_line list e = tt
match_line info e = tt
match_line help e = tt
match_line quit e = tt

cancel_line : (c : Command) → find_cmd "cancel" ≡ some c → HasFile obliging c ("cancel" ∷ "1" ∷ [])
unfolding find_cmd
cancel_line cat e = cc
cancel_line match e = tt
cancel_line cancel e = tt
cancel_line list e = tt
cancel_line info e = tt
cancel_line help e = tt
cancel_line quit e = tt

control_loop-IsSound_example :
    (ctx' : Ctx obliging) × (control_loop obliging fresh_session lines ≡ some ctx') × IsSound ctx'
control_loop-IsSound_example =
    control_loop-IsSound obliging fresh_session lines fresh_session-IsSound
      (match_line, (cancel_line, tt)) (omega arith)

-- After the first line, job 1 is allocated.
abbrev running : Ctx obliging
running = record fresh_session {
  traverser = true;
  jobid_counter = 2;
  jobs =
      (1, record { jobid = 1; state = allocated; scheduled_at = pos 0; jobspec_fn = "job.yaml" })
      ∷ [];
  allocations = (1, 1) ∷ [];
}

running-IsSound : IsSound running
unfolding contains
running-IsSound = record {
  sound = λ j. record {
    allocation = ground arith;
    reservation = ground arith;
    fresh = λ h. ground arith;
  };
}

cancel_twice_example :
    let after = cancel_job obliging running 1 in
    (is_cancelled (lookup 1 after.jobs) ≡ true)
    × (contains 1 after.allocations ≡ false)
    × (contains 1 after.reservations ≡ false)
    × ((j : ℕ) → (1 == j) ≡ false → lookup j after.jobs ≡ lookup j running.jobs)
    × (cancel_job obliging after 1 ≡ print (nonexistent_job 1 ∷ []) after)
unfolding contains
cancel_twice_example = cancel_twice obliging running 1 running-IsSound refl refl
