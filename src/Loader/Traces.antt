-- ===== src/Loader/Traces.antt =====
-- Loads of internal/gpu/gds_linux.go that overlap: a load looks at the table, reads the shard
-- without the lock, and looks again. The other calls hold the lock from begin to end.
pub mod Tame
pub mod Safety
pub mod Overlap
use oci2gdsd.Prelude.{
  ℕ, ◌+◌, ◌≡◌, Bool, true, false, Option, none, some, List, [], ◌∷◌, ◌++◌, lookup,
}
use oci2gdsd.AppErr.{AppError, ok, err}
use oci2gdsd.Loader.{
  Persistent, LoaderState, FileRequest, Region, Bridge, LoaderCall, loads, run_call, alloc_key,
  begin_session, end_session, load_again, load_checked,
}
use oci2gdsd.Loader.Memory.{count}

-- A shard that is being read, or has been and is not yet in the table.
pub record Flight : Type 0 where
  pub req : FileRequest
  pub size : ℕ
  pub region : Region

pub record Busy : Type 0 where
  pub state : LoaderState
  pub flights : List Flight

abbrev pub idle_loader : Busy
idle_loader = record {
  state = record { sessions = []; allocations = []; memory = []; driver_up = false };
  flights = [];
}

abbrev pub is_load : LoaderCall → Bool
is_load loads = true
is_load _ = false

-- One step of one of the callers; the second look of a load, the freeing of a double and the end of
-- its session are one step. The C side gives out pointers that it has not given out already.
pub data Step (b : Bridge) (s : Busy) : Busy → Type 0 where
  calls :
      (n : ℕ) (c : LoaderCall) (req : FileRequest)
      → is_load c ≡ false
      → Step b s (record s { state = (run_call b n c req s.state).1 })
  loads_again :
      (req : FileRequest) (a : Persistent)
      → lookup (alloc_key b req) s.state.allocations ≡ some a
      → Step b s (record s { state = (load_again b req a s.state).1 })
  session_fails :
      (n : ℕ) (req : FileRequest) (e : AppError) (st : LoaderState)
      → begin_session b n req.device s.state ≡ (err e, st)
      → Step b s (record s { state = st })
  read_fails :
      (n : ℕ) (req : FileRequest) (st : LoaderState)
      → begin_session b n req.device s.state ≡ (ok tt, st)
      → Step b s (record s { state = end_session b req.device st })
  reads :
      (n : ℕ) (f : Flight) (st : LoaderState)
      → begin_session b n f.req.device s.state ≡ (ok tt, st)
      → count f.region.ptr s.state.memory ≡ 0
      → Step b s (record {
        state = record st { memory = f.region.ptr ∷ st.memory };
        flights = f ∷ s.flights;
      })
  finishes :
      (n : ℕ) (before : List Flight) (f : Flight) (later : List Flight)
      → s.flights ≡ before ++ f ∷ later
      → Step b s (record {
        state = end_session b f.req.device (load_checked b n f.req f.size f.region s.state).1;
        flights = before ++ later;
      })

pub data Reach (b : Bridge) (s : Busy) : Busy → Type 0 where
  here : Reach b s s
  later : {t u : Busy} → Reach b s t → Step b t u → Reach b s u
