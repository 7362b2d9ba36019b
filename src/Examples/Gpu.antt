-- ===== src/Examples/Gpu.antt =====
-- Tests of the loader of internal/gpu/gds_linux.go.
use oci2gdsd.Prelude.{
  erase, none, ◌⊎◌, pos, trim_space, ℕ, ◌≡◌, refl, true, false, some, [], ◌∷◌, codes, lookup,
  insert, text_eq, is_empty, arith,
}
use oci2gdsd.AppErr.{ok, err}
use oci2gdsd.Loader.{
  not_loaded, attach_persistent, detach_persistent, load_persistent, LoaderState, FileRequest,
  Bridge, loads, attaches, run_call, alloc_key, begin_session, end_session, load_checked,
  settle_driver, session_count, set_session, drop_session, total_refs, load_store, load_again, free,
  remove_ptr,
}
use oci2gdsd.Loader.Entries.{TableValid}
use oci2gdsd.Loader.Refs.{run_call-TableValid}
use oci2gdsd.Attachments.{GpuAttachRequest, Attached, gpu_attach, prune_expired}
use oci2gdsd.Attachments.Rollback.{gpu_attach_undone}
use oci2gdsd.Loader.Traces.{Flight, Busy, idle_loader, Reach, here, later, reads, finishes}
use oci2gdsd.Loader.Traces.Safety.{Safe}
use oci2gdsd.Loader.Traces.Overlap.{Reach-Safe}

-- Every call of the C side ends well; the pointer of call n is n.
abbrev bridge : Bridge
bridge = record {
  decimal = λ n. codes "0";
  cancelled = λ n. false;
  file_size = λ n p. some 4;
  starts = λ n. true;
  activates = λ n d. true;
  reads = λ n p. some (record { ptr = n; bytes = 4; direct = true });
  frees = λ n p. true;
  exports = λ n p. true;
}

abbrev request : FileRequest
request = record { path = codes "/m/a"; device = 0; client_id = codes "c" }

nothing-Valid : TableValid []
unfolding lookup
nothing-Valid = record { entries = λ k a h. absurd (ground (arith, h)) }

abbrev one_loaded : LoaderState
one_loaded = (run_call bridge 7 loads request idle_loader.state).1

-- A client attaches to what is loaded.
run_call-TableValid_example :
    TableValid (run_call bridge 8 attaches request one_loaded).1.allocations
run_call-TableValid_example =
    run_call-TableValid bridge 8 attaches request one_loaded
      (run_call-TableValid bridge 7 loads request idle_loader.state nothing-Valid)

-- Two loads of one file: both read it before one of them is in the table.
abbrev flight : ℕ → Flight
flight p = record { req = request; size = 4; region = record { ptr = p; bytes = 4; direct = true } }

abbrev both_read : Busy
both_read = record {
  state = record {
    sessions = (0, 2) ∷ [];
    allocations = [];
    memory = 8 ∷ 7 ∷ [];
    driver_up = true;
  };
  flights = flight 8 ∷ flight 7 ∷ [];
}

two_loads : Reach bridge idle_loader both_read
unfolding begin_session session_count set_session
two_loads = later (later here (reads 1 (flight 7) _ refl refl)) (reads 2 (flight 8) _ refl refl)

-- The second load ends first; then the first finds the table filled and frees what it read.
abbrev one_done : Busy
one_done = record {
  state =
      end_session bridge 0 (load_checked bridge 3 request 4 (flight 8).region both_read.state).1;
  flights = flight 7 ∷ [];
}

abbrev both_done : Busy
both_done = record {
  state = end_session bridge 0 (load_checked bridge 4 request 4 (flight 7).region one_done.state).1;
  flights = [];
}

Reach-Safe_example : Safe both_done.state both_done.flights
Reach-Safe_example = Reach-Safe bridge (
    later (later two_loads (finishes 3 [] (flight 8) (flight 7 ∷ []) refl))
      (finishes 4 [] (flight 7) [] refl))

both_done_memory : both_done.state.memory ≡ 8 ∷ []
unfolding begin_session end_session load_checked load_store load_again free remove_ptr settle_driver
    session_count set_session drop_session total_refs alloc_key lookup insert text_eq is_empty
both_done_memory = refl

-- Of two shards only the first is loaded: the attachment fails, and leaves nothing behind.
abbrev attach_two : GpuAttachRequest
attach_two = record {
  target = ok (record { model_key = codes "a@d"; device_uuid = codes "g"; device_index = 0 });
  client_id = codes "c";
  ttl_seconds = pos 0;
  slot = none;
  shard_paths = ok (codes "/m/a" ∷ codes "/m/b" ∷ []);
}

abbrev one_attached : Attached
one_attached = record { loader = one_loaded; attachments = [] }

attach_two_fails : gpu_attach bridge 8 9 attach_two one_attached ≡ (err not_loaded, one_attached)
unfolding gpu_attach is_empty trim_space attach_persistent lookup run_call load_persistent insert
    text_eq detach_persistent erase
attach_two_fails = refl

gpu_attach_undone_example :
    (one_attached ≡ one_attached) ⊎ (one_attached ≡ prune_expired bridge 9 one_attached)
gpu_attach_undone_example =
    gpu_attach_undone bridge 8 9 attach_two one_attached one_attached not_loaded
      (run_call-TableValid bridge 7 loads request idle_loader.state nothing-Valid) attach_two_fails
