-- ===== src/Template/Examples.antt =====
-- The theorems of the template pallet at concrete inputs, and the tests of
-- pallets/template/src/tests.rs, over u32 block numbers.
use swarm_robotics_parachain.Common.{◌≡◌, ◌≢◌, refl, false, none, some, List, [], ◌∷◌, arith}
use swarm_robotics_parachain.Host.{HostOrigin, root, account, host_origins, host_system}
use swarm_robotics_parachain.Host.U32.{host_u32}
use swarm_robotics_parachain.Frame.Dispatch.{module_error, ok, err}
use swarm_robotics_parachain.Template.Types.{
  none_value, Event, something_stored, Deps, State, Call, does_something, causes_error,
}
use swarm_robotics_parachain.Template.{dispatch, run, do_something, cause_error}
use swarm_robotics_parachain.Template.Counter.{counter, counter-run, cause_error_reply}
use swarm_robotics_parachain.Template.Log.{pallet_events, run-reports}

abbrev host : Deps
host = record {
  numbers = host_u32;
  origins = host_origins;
  RuntimeEvent = Event host_u32 host_origins;
  from_event = λ e. e;
  as_event = some;
  as_event-from_event = λ e. refl;
  system = host_system (Event host_u32 host_origins);
}

abbrev start : State host
start = record { something = none; system = record { genesis = false; record_of_events = [] } }

-- `it_works_for_default_value`
it_works_for_default_value :
    counter host (dispatch host (account 1) (does_something 42) start).1 ≡ some 42
unfolding dispatch do_something
it_works_for_default_value = refl

-- `correct_error_for_none_value`
correct_error_for_none_value :
    dispatch host (account 1) causes_error start ≡ (err (module_error none_value), start)
unfolding dispatch cause_error
correct_error_for_none_value = refl

fails : (dispatch host (account 1) causes_error start).0 ≢ ok tt
unfolding dispatch cause_error
fails = λ e. ground arith

abbrev script : List (HostOrigin × Call)
script =
    (account 1, causes_error)
    ∷ (account 1, does_something 4294967294)
    ∷ (root, causes_error)
    ∷ (account 2, causes_error)
    ∷ (account 2, causes_error)
    ∷ []

counter-run_example : counter host (run host script start) ≡ some 4294967295
counter-run_example = counter-run host script start (omega arith)

cause_error_reply_example :
    (dispatch host (account 1) causes_error start).0 ≡ err (module_error none_value)
cause_error_reply_example = cause_error_reply host 1 start

run-reports_example :
    pallet_events host (run host script start)
    ≡ something_stored (host_u32.u32_into 4294967294) 1 ∷ []
run-reports_example = run-reports host script start refl
