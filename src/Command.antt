-- ===== src/Command.antt =====
-- `command.hpp` and `command.cpp`: the session's tables and its commands, over a traverser that is
-- given by its two calls. A call that does not return ends the session, so the calls here do.
pub mod Tables
pub mod Loop
pub mod Cancel
use resource_query.Prelude.{
  ℕ, zero, suc, ◌+◌, ◌%◌, ℤ, pos, negsuc, ◌==ℤ◌, String, List, [], ◌∷◌, ◌++◌, Bool, true, false,
  ◌||◌, not, Option, none, some, Dict, lookup, insert, erase, contains, nat_key, string_key, ◌=?◌,
  if◌then◌else◌,
}
use resource_query.Jobspec.{Jobspec}
use resource_query.ResourceData.Color.{u64}
use resource_query.Traverse.Traverser.{MatchOp, match_allocate, match_allocate_orelse_reserve}

pub data JobState : Type 0 where
  init allocated reserved cancelled : JobState

pub record JobInfo : Type 0 where
  pub jobid : ℕ
  pub state : JobState
  pub scheduled_at : ℤ
  pub jobspec_fn : String

-- What `cmd_match` finds when it opens the file and reads the jobspec.
pub data Loaded : Type 0 where
  loaded : Jobspec → Loaded
  io_failure parse_failure : Loaded

pub record Session : Type 1 where
  pub Traverser : Type 0
  -- `run` gives its result and `*at`
  pub run : Traverser → Jobspec → MatchOp → ℕ → ℤ → Traverser × ℤ × ℤ
  pub remove : Traverser → ℕ → Traverser × ℤ
  pub clear_err_message : Traverser → Traverser
  pub load : String → Loaded
  -- `(uint64_t)std::strtoll (s, NULL, 10)` and `(uint64_t)std::atoll (s)`
  pub strtoll : String → ℕ
  pub atoll : String → ℕ

-- The lines of output, by what they say. The elapsed time is not part of them.
pub data Output : Type 0 where
  malformed : Output
  unknown_subcmd : String → Output
  scheduled : ℕ → Bool → ℤ → Output
  no_match : ℕ → Output
  io_error jobspec_error : ℕ → Output
  nonexistent_job remove_error : ℕ → Output
  traverser_error : Output
  job_line : JobInfo → Output
  no_such_job : String → Output
  file_lines : String → Output
  help_line : String → Output
  unknown_command : String → Output

pub record Context (T : Type 0) : Type 0 where
  pub traverser : T
  pub jobid_counter : ℕ
  pub jobs : Dict ℕ JobInfo
  pub allocations : Dict ℕ ℕ
  pub reservations : Dict ℕ ℕ
  pub output : List Output

abbrev pub print : {T : Type 0} → List Output → Context T → Context T
print out ctx = record ctx { output = ctx.output ++ out }

-- The names and abbreviations of the table `commands`.
pub data Command : Type 0 where
  match cancel list info cat help quit : Command

abbrev pub commands : List (String × String × Command)
commands =
    ("match", "m", match)
    ∷ ("cancel", "c", cancel)
    ∷ ("list", "l", list)
    ∷ ("info", "i", info)
    ∷ ("cat", "a", cat)
    ∷ ("help", "h", help)
    ∷ ("quit", "q", quit)
    ∷ []

unfoldable pub find_in : String → List (String × String × Command) → Option Command
find_in s [] = none
find_in s ((name, abbr, c) ∷ rest) =
    if s =? name then some c else if s =? abbr then some c else find_in s rest

unfoldable pub find_cmd : String → Option Command
unfolding find_in
find_cmd s = find_in s commands

abbrev pub is_zero : ℤ → Bool
is_zero at = at ==ℤ pos 0

module _ (session : Session) where
  abbrev pub Ctx : Type 0
  Ctx = Context session.Traverser

  unfoldable pub do_remove : Ctx → ℕ → Ctx × ℤ
  do_remove ctx jobid =
      let (t, rc) = session.remove ctx.traverser jobid in
      if rc ==ℤ pos 0
      then elim (lookup jobid ctx.jobs) [
        | none ↦ (record ctx { traverser = t }, rc)
        | some job ↦ (
          record ctx {
            traverser = t;
            jobs = insert jobid (record job { state = cancelled }) ctx.jobs;
          },
          rc,
        )
      ]
      else (
        print (traverser_error ∷ []) (record ctx { traverser = session.clear_err_message t }),
        rc,
      )

  -- A job that starts now is an allocation, any other one a reservation.
  unfoldable pub print_schedule_info : Ctx → ℕ → String → Bool → ℤ → Ctx
  print_schedule_info ctx jobid fn matched at =
      let counter = (ctx.jobid_counter + 1) % u64 in
      if matched
      then print (scheduled jobid (is_zero at) at ∷ []) (record ctx {
        jobid_counter = counter;
        jobs =
            insert jobid
              (record {
                jobid = jobid;
                state = if is_zero at then allocated else reserved;
                scheduled_at = at;
                jobspec_fn = fn;
              })
              ctx.jobs;
        allocations = if is_zero at then insert jobid jobid ctx.allocations else ctx.allocations;
        reservations = if is_zero at then ctx.reservations else insert jobid jobid ctx.reservations;
      })
      else print (no_match jobid ∷ []) (record ctx { jobid_counter = counter })

  unfoldable pub match_loaded : Ctx → MatchOp → String → Loaded → Ctx
  unfolding print_schedule_info
  match_loaded ctx op fn io_failure = print (io_error ctx.jobid_counter ∷ []) ctx
  match_loaded ctx op fn parse_failure = print (jobspec_error ctx.jobid_counter ∷ []) ctx
  match_loaded ctx op fn (loaded job) =
      let (t, rc, at) = session.run ctx.traverser job op ctx.jobid_counter (pos 0) in
      print_schedule_info (record ctx { traverser = t }) ctx.jobid_counter fn (is_zero rc) at

  unfoldable pub match_job : Ctx → MatchOp → String → Ctx
  unfolding match_loaded
  match_job ctx op fn = match_loaded ctx op fn (session.load fn)

  unfoldable pub cmd_match : Ctx → List String → Ctx
  unfolding match_job
  cmd_match ctx (_ ∷ sub ∷ fn ∷ []) =
      if sub =? "allocate"
      then match_job ctx match_allocate fn
      else if sub =? "allocate_orelse_reserve"
      then match_job ctx match_allocate_orelse_reserve fn
      else print (unknown_subcmd sub ∷ []) ctx
  cmd_match ctx _ = print (malformed ∷ []) ctx

  abbrev pub report_remove : ℕ → Ctx × ℤ → Ctx
  report_remove jobid (ctx, rc) = if is_zero rc then ctx else print (remove_error jobid ∷ []) ctx

  unfoldable pub cancel_job : Ctx → ℕ → Ctx
  unfolding do_remove
  cancel_job ctx jobid =
      let (ctx', rc) = do_remove ctx jobid in
      if contains jobid ctx.allocations
      then report_remove jobid (
        (if is_zero rc then record ctx' { allocations = erase jobid ctx'.allocations } else ctx'),
        rc,
      )
      else if contains jobid ctx.reservations
      then report_remove jobid (
        (if is_zero rc then record ctx' { reservations = erase jobid ctx'.reservations } else ctx'),
        rc,
      )
      else print (nonexistent_job jobid ∷ []) ctx

  unfoldable pub cmd_cancel : Ctx → List String → Ctx
  unfolding cancel_job
  cmd_cancel ctx (_ ∷ arg ∷ []) = cancel_job ctx (session.strtoll arg)
  cmd_cancel ctx _ = print (malformed ∷ []) ctx

  abbrev pub job_lines : Dict ℕ JobInfo → List Output
  job_lines [] = []
  job_lines ((_, job) ∷ rest) = job_line job ∷ job_lines rest

  unfoldable pub cmd_list : Ctx → List String → Ctx
  cmd_list ctx args = print (job_lines ctx.jobs) ctx

  unfoldable pub cmd_info : Ctx → List String → Ctx
  cmd_info ctx (_ ∷ arg ∷ []) = elim (lookup (session.atoll arg) ctx.jobs) [
    | none ↦ print (no_such_job arg ∷ []) ctx
    | some job ↦ print (job_line job ∷ []) ctx
  ]
  cmd_info ctx _ = print (malformed ∷ []) ctx

  -- `args[1]` is read without a test of the size: `none` is the missing argument.
  unfoldable pub cmd_cat : Ctx → List String → Option Ctx
  cmd_cat ctx (_ ∷ fn ∷ _) = some (print (file_lines fn ∷ []) ctx)
  cmd_cat ctx _ = none

  abbrev pub help_lines : Option String → List (String × String × Command) → List Output
  help_lines cmd [] = []
  help_lines none ((name, abbr, _) ∷ rest) = help_line name ∷ help_lines none rest
  help_lines (some c) ((name, abbr, _) ∷ rest) =
      (if c =? name || c =? abbr then help_line name ∷ [] else []) ++ help_lines (some c) rest

  abbrev pub or_unknown : String → List Output → List Output
  or_unknown c [] = unknown_command c ∷ []
  or_unknown c (l ∷ ls) = l ∷ ls

  unfoldable pub cmd_help : Ctx → List String → Ctx
  cmd_help ctx (_ ∷ c ∷ []) = print (or_unknown c (help_lines (some c) commands)) ctx
  cmd_help ctx _ = print (help_lines none commands) ctx

  -- One command: the context after it, and whether the session goes on. `none` is the undefined
  -- access of `cmd_cat`.
  unfoldable pub execute : Ctx → Command → List String → Option (Ctx × Bool)
  unfolding cmd_match cmd_cancel cmd_list cmd_info cmd_cat cmd_help
  execute ctx match args = some (cmd_match ctx args, true)
  execute ctx cancel args = some (cmd_cancel ctx args, true)
  execute ctx list args = some (cmd_list ctx args, true)
  execute ctx info args = some (cmd_info ctx args, true)
  execute ctx cat args = elim (cmd_cat ctx args) [ none ↦ none | some ctx' ↦ some (ctx', true) ]
  execute ctx help args = some (cmd_help ctx args, true)
  execute ctx quit args = some (ctx, false)

  -- One round of `control_loop`, over the tokens of a line; a null line has none.
  unfoldable pub control_step : Ctx → List String → Option (Ctx × Bool)
  unfolding execute find_cmd
  control_step ctx [] = some (ctx, true)
  control_step ctx (cmd ∷ args) = elim (find_cmd cmd) [
    | none ↦ some (ctx, true)
    | some c ↦ execute ctx c (cmd ∷ args)
  ]

  -- The loop over the lines that the user enters, ended by `quit`.
  unfoldable pub control_loop : Ctx → List (List String) → Option Ctx
  unfolding control_step
  control_loop ctx [] = some ctx
  control_loop ctx (line ∷ lines) = elim (control_step ctx line) [
    | none ↦ none
    | some (ctx', true) ↦ control_loop ctx' lines
    | some (ctx', false) ↦ some ctx'
  ]
