-- ===== src/Loader/Traces/Overlap.antt =====
-- What holds however the calls of internal/gpu/gds_linux.go overlap.
use mathlib.Core.Path.{subst}
use oci2gdsd.Prelude.{
  ℕ, ◌+◌, ◌≤◌, ◌==◌, ltb, ◌≡◌, refl, sym, true, false, ◌&&◌, List, [], ◌∷◌, ◌++◌, is_empty, arith,
  Bool-cases, inl, inr,
}
use oci2gdsd.AppErr.{Result, ok, err}
use oci2gdsd.Loader.{LoaderState, Bridge, begin_session, settle_driver, session_count, load_checked}
use oci2gdsd.Loader.Memory.{one, count}
use oci2gdsd.Loader.Traces.{
  Flight, Busy, idle_loader, Step, calls, loads_again, session_fails, read_fails, reads, finishes,
  Reach, here, later,
}
use oci2gdsd.Loader.Traces.Tame.{run_call-Tame, load_again-Tame}
use oci2gdsd.Loader.Traces.Safety.{
  in_flight-append, flying-append, Safe, Opened, Begun, Tame-Safe, end_session-Safe,
  begin_session-Begun, load_checked-Opened,
}

settle_driver_memory : (s : LoaderState) → (settle_driver s).memory ≡ s.memory
unfolding settle_driver
settle_driver_memory s = ground arith

begin_session_memory :
    (b : Bridge) (n d : ℕ) (s : LoaderState) → (begin_session b n d s).1.memory ≡ s.memory
unfolding begin_session
begin_session_memory b n d s = elim (Bool-cases (ltb 0 (session_count d s.sessions))) [
  | inl e ↦ rw e refl
  | inr e ↦ elim (Bool-cases (b.starts n)) [
    | inr f ↦ rw (e, f) refl
    | inl f ↦ elim (Bool-cases (b.activates n d)) [
      | inl g ↦ rw (e, f, g) refl
      | inr g ↦ rw (e, f, g) (settle_driver_memory (record s { driver_up = true }))
    ]
  ]
]

begun :
    (b : Bridge) (n d : ℕ) (s : LoaderState) (fs : List Flight)
    (o : Result (Unit {0}) × LoaderState)
    → begin_session b n d s ≡ o
    → Safe s fs
    → Begun d fs o
begun b n d s fs o g h = subst (Begun d fs) g (begin_session-Begun b n d s fs h)

-- The driver is up while a load is on its way.
up_in_flight :
    (s : LoaderState) (before : List Flight) (f : Flight) (rest : List Flight)
    → Safe s (before ++ f ∷ rest)
    → s.driver_up ≡ true
up_in_flight s [] f rest h = h.driver (unfold is_empty in ground arith)
up_in_flight s (g ∷ before) f rest h = h.driver (unfold is_empty in ground arith)

-- A shard that has been read is on its way.
read_Safe :
    (f : Flight) (st : LoaderState) (fs : List Flight)
    → Opened f.req.device st fs
    → count f.region.ptr st.memory ≡ 0
    → Safe (record st { memory = f.region.ptr ∷ st.memory }) (f ∷ fs)
read_Safe f st fs h new = record {
  held = λ p. omega (arith, h.held p);
  once = λ p. elim (Bool-cases (f.region.ptr == p)) [
    | inl e ↦
        let same : f.region.ptr ≡ p = ground (arith, e) in
        subst (λ q. one q f.region.ptr + count q st.memory ≤ 1) same (ground (arith, new))
    | inr e ↦ ground (arith, e, h.once p)
  ];
  in_session = λ c. omega (arith, h.in_session c);
  driver = λ _. h.driver;
}

Step-Safe : (b : Bridge) {s t : Busy} → Step b s t → Safe s.state s.flights → Safe t.state t.flights
Step-Safe b {s} (calls n c req l) h =
    Tame-Safe s.state _ s.flights (run_call-Tame b n c req s.state l) h
Step-Safe b {s} (loads_again req a e) h =
    Tame-Safe s.state _ s.flights (load_again-Tame b 0 req a s.state e) h
Step-Safe b {s} (session_fails n req e st g) h =
    begun b n req.device s.state s.flights (err e, st) g h
Step-Safe b {s} (read_fails n req st g) h =
    end_session-Safe b req.device st s.flights
      (begun b n req.device s.state s.flights (ok tt, st) g h)
Step-Safe b {s} (reads n f st g new) h =
    read_Safe f st s.flights (begun b n f.req.device s.state s.flights (ok tt, st) g h)
      (subst (λ m. count f.region.ptr m ≡ 0) same new)
  where
    same : s.state.memory ≡ st.memory
    same =
        subst (λ o. s.state.memory ≡ o.1.memory) g
          (sym (begin_session_memory b n f.req.device s.state))
Step-Safe b {s} (finishes n before f rest e) h =
    end_session-Safe b f.req.device (load_checked b n f.req f.size f.region s.state).1
      (before ++ rest)
      (load_checked-Opened b n f s.state (before ++ rest)
        (λ p.
          omega (
            arith,
            was.held p,
            in_flight-append p before (f ∷ rest),
            in_flight-append p before rest,
          ))
        was.once
        (λ d.
          omega (
            arith,
            was.in_session d,
            flying-append d before (f ∷ rest),
            flying-append d before rest,
          ))
        (up_in_flight s.state before f rest was))
  where
    was : Safe s.state (before ++ f ∷ rest)
    was = subst (Safe s.state) e h

idle : is_empty idle_loader.state.allocations && is_empty idle_loader.flights ≡ false → ⊥
unfolding is_empty
idle e = ground (arith, e)

-- However calls overlap, from an idle loader on: each pointer of the table and of a shard on its
-- way is one that the C side gave out and that was not freed, no two of them are the same, the
-- sessions of a device are as many as its loads on their way, and the driver is up as long as
-- anything is loaded or on its way.
pub Reach-Safe : (b : Bridge) {s : Busy} → Reach b idle_loader s → Safe s.state s.flights
Reach-Safe b here = record {
  held = λ p. omega arith;
  once = λ p. omega arith;
  in_session = λ d. unfold session_count in refl;
  driver = λ e. absurd (idle e);
}
Reach-Safe b (later r st) = Step-Safe b st (Reach-Safe b r)
