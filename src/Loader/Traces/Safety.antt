-- ===== src/Loader/Traces/Safety.antt =====
-- What is kept while the calls of internal/gpu/gds_linux.go overlap, part by part.
use oci2gdsd.Prelude.{
  ℕ, ◌+◌, ◌-◌, ◌≤◌, ◌<◌, ◌==◌, ltb, ◌≡◌, refl, true, false, ◌&&◌, List, [], ◌∷◌, ◌++◌, is_empty,
  inl, inr, lookup, insert, arith, Bool-cases, Option-cases, if◌then◌else◌,
}
use oci2gdsd.AppErr.{Result, ok, err}
use oci2gdsd.Loader.{
  Persistent, LoaderState, Bridge, alloc_key, begin_session, end_session, settle_driver,
  session_count, set_session, drop_session, total_refs, free, load_again, load_store, load_checked,
}
use oci2gdsd.Loader.Memory.{
  one, count, in_table, count-remove_ptr, count-remove_ptr_le, in_table-insert,
  in_table-insert_same, session_count-set_session, session_count-drop_session, session_count-le,
}
use oci2gdsd.Loader.Traces.{Flight}
use oci2gdsd.Loader.Traces.Tame.{Tame}

abbrev pub in_flight : ℕ → List Flight → ℕ
in_flight p [] = 0
in_flight p (f ∷ fs) = one p f.region.ptr + in_flight p fs

abbrev pub flying : ℕ → List Flight → ℕ
flying d [] = 0
flying d (f ∷ fs) = one d f.req.device + flying d fs

-- No pointer of the table, or of a load on its way, has been given back, or is another's; each
-- load on its way has a session; and the driver is up while anything is loaded or on its way.
pub record Safe (s : LoaderState) (fs : List Flight) : Type 0 where
  pub held : (p : ℕ) → in_table p s.allocations + in_flight p fs ≤ count p s.memory
  pub once : (p : ℕ) → count p s.memory ≤ 1
  pub in_session : (d : ℕ) → flying d fs ≡ session_count d s.sessions
  pub driver : is_empty s.allocations && is_empty fs ≡ false → s.driver_up ≡ true

pub in_flight-append :
    (p : ℕ) (xs ys : List Flight) → in_flight p (xs ++ ys) ≡ in_flight p xs + in_flight p ys
in_flight-append p [] ys = omega arith
in_flight-append p (x ∷ xs) ys = omega (arith, in_flight-append p xs ys)

pub flying-append : (d : ℕ) (xs ys : List Flight) → flying d (xs ++ ys) ≡ flying d xs + flying d ys
flying-append d [] ys = omega arith
flying-append d (x ∷ xs) ys = omega (arith, flying-append d xs ys)

-- With no session there is no load on its way.
no_flights :
    (s : LoaderState) (fs : List Flight)
    → ((d : ℕ) → flying d fs ≡ session_count d s.sessions)
    → total_refs s.sessions ≡ 0
    → is_empty fs ≡ true
unfolding is_empty
no_flights s [] h z = refl
no_flights s (f ∷ fs) h z =
    absurd (ground (arith, h f.req.device, session_count-le f.req.device s.sessions))

pub Tame-Safe : (s t : LoaderState) (fs : List Flight) → Tame s t → Safe s fs → Safe t fs
Tame-Safe s t fs m h = record {
  held = λ p. m.held p (in_flight p fs) (h.held p);
  once = λ p. omega (arith, m.shrinks p, h.once p);
  in_session = sessions;
  driver = λ e. elim m.driver [
    | inl same ↦ ground (arith, h.driver, m.emptier, same, e)
    | inr gone ↦ absurd (ground (arith, gone.1, no_flights t fs sessions gone.0, e))
  ];
}
  where
    sessions : (d : ℕ) → flying d fs ≡ session_count d t.sessions
    sessions d = rw m.same_sessions (h.in_session d)

-- The driver goes down only with the last user.
settle-Safe : (s : LoaderState) (fs : List Flight) → Safe s fs → Safe (settle_driver s) fs
unfolding settle_driver
settle-Safe s fs h = elim (Bool-cases (total_refs s.sessions == 0 && is_empty s.allocations)) [
  | inr e ↦ rw e h
  | inl e ↦ rw e (record {
    held = h.held;
    once = h.once;
    in_session = h.in_session;
    driver = λ f. absurd (ground (arith, e, f, no_flights s fs h.in_session));
  })
]

-- The state while a session is open that no load has yet.
pub record Opened (d : ℕ) (s : LoaderState) (fs : List Flight) : Type 0 where
  pub held : (p : ℕ) → in_table p s.allocations + in_flight p fs ≤ count p s.memory
  pub once : (p : ℕ) → count p s.memory ≤ 1
  pub in_session : (e : ℕ) → flying e fs + one e d ≡ session_count e s.sessions
  pub driver : s.driver_up ≡ true

-- A session ends.
pub end_session-Safe :
    (b : Bridge) (d : ℕ) (s : LoaderState) (fs : List Flight)
    → Opened d s fs
    → Safe (end_session b d s) fs
unfolding end_session
end_session-Safe b d s fs h =
    settle-Safe
      (record s {
        sessions =
            if ltb 1 count_d
            then set_session d (count_d - 1) s.sessions
            else drop_session d s.sessions;
      })
      fs
      (record {
        held = h.held;
        once = h.once;
        in_session = λ e. ground (
          arith,
          h.in_session e,
          h.in_session d,
          session_count-set_session e d (count_d - 1) s.sessions,
          session_count-drop_session e d s.sessions,
        );
        driver = λ _. h.driver;
      })
  where
    count_d : ℕ
    count_d = session_count d s.sessions

pub some_flight : (d : ℕ) (fs : List Flight) → 0 < flying d fs → is_empty fs ≡ false
unfolding is_empty
some_flight d [] h = absurd (omega arith)
some_flight d (f ∷ fs) h = refl

-- How `begin_session` ends.
abbrev pub Begun : ℕ → List Flight → Result (Unit {0}) × LoaderState → Type 0
Begun d fs (ok u, s) = Opened d s fs
Begun d fs (err e, s) = Safe s fs

module _ (b : Bridge) (n : ℕ) where
  pub begin_session-Begun :
      (d : ℕ) (s : LoaderState) (fs : List Flight) → Safe s fs → Begun d fs (begin_session b n d s)
  unfolding begin_session
  begin_session-Begun d s fs h = elim (Bool-cases (ltb 0 (session_count d s.sessions))) [
    | inl e ↦ rw e (record {
      held = h.held;
      once = h.once;
      in_session = λ c. ground (
        arith,
        h.in_session c,
        h.in_session d,
        session_count-set_session c d (session_count d s.sessions + 1) s.sessions,
      );
      driver = h.driver (ground (arith, some_flight d fs, h.in_session d, e));
    })
    | inr e ↦ elim (Bool-cases (b.starts n)) [
      | inr f ↦ rw (e, f) h
      | inl f ↦ elim (Bool-cases (b.activates n d)) [
        | inl g ↦
            rw (e, f, g)
              (record {
                held = h.held;
                once = h.once;
                in_session = λ c. ground (
                  arith,
                  h.in_session c,
                  h.in_session d,
                  session_count-set_session c d 1 s.sessions,
                );
                driver = refl;
              })
        | inr g ↦
            rw (e, f, g)
              (settle-Safe (record s { driver_up = true }) fs
                (record {
                  held = h.held;
                  once = h.once;
                  in_session = h.in_session;
                  driver = λ _. refl;
                }))
      ]
    ]
  ]

  -- A load that comes to its end: its pointer goes to the table, or back.
  pub load_checked-Opened :
      (f : Flight) (s : LoaderState) (fs : List Flight)
      → ((p : ℕ)
          → in_table p s.allocations + (in_flight p fs + one p f.region.ptr) ≤ count p s.memory)
      → ((p : ℕ) → count p s.memory ≤ 1)
      → ((e : ℕ) → flying e fs + one e f.req.device ≡ session_count e s.sessions)
      → s.driver_up ≡ true
      → Opened f.req.device (load_checked b n f.req f.size f.region s).1 fs
  unfolding load_checked load_store load_again free
  load_checked-Opened f s fs held once ss up = elim (Bool-cases (f.region.bytes == f.size)) [
    | inr e ↦ rw e (given_back s (λ p. held p) once ss up)
    | inl e ↦ rw e (elim (Option-cases (lookup (alloc_key b f.req) s.allocations)) [
      | inl none_there ↦
          rw (none_there, load_store)
            (record {
              held = λ p.
                  omega
                    (arith, held p, in_table-insert p (alloc_key b f.req) (entry f) s.allocations);
              once = once;
              in_session = ss;
              driver = up;
            })
      | inr (a, there) ↦
          rw (there, load_store)
            (given_back
              (record s {
                allocations =
                    insert (alloc_key b f.req) (record a { load_refs = a.load_refs + 1 })
                      s.allocations;
              })
              (λ p. omega (
                arith,
                held p,
                in_table-insert_same p (alloc_key b f.req) a
                    (record a { load_refs = a.load_refs + 1 }) s.allocations there refl,
              ))
              once ss up)
    ])
  ]
    where
      entry : Flight → Persistent
      entry g = record {
        device = g.req.device;
        ptr = g.region.ptr;
        bytes = g.region.bytes;
        load_refs = 1;
        importer_refs = 0;
        importers = [];
        direct = g.region.direct;
      }

      given_back :
          (t : LoaderState)
          → ((p : ℕ)
              → in_table p t.allocations + (in_flight p fs + one p f.region.ptr) ≤ count p t.memory)
          → ((p : ℕ) → count p t.memory ≤ 1)
          → ((e : ℕ) → flying e fs + one e f.req.device ≡ session_count e t.sessions)
          → t.driver_up ≡ true
          → Opened f.req.device (free b n f.region.ptr t).1 fs
      given_back t held once ss up = elim (Bool-cases (b.frees n f.region.ptr)) [
        | inl e ↦ rw e (record {
          held = λ p. omega (arith, held p, count-remove_ptr p f.region.ptr t.memory);
          once = λ p. omega (arith, once p, count-remove_ptr_le p f.region.ptr t.memory);
          in_session = ss;
          driver = up;
        })
        | inr e ↦ rw e (record {
          held = λ p. omega (arith, held p);
          once = once;
          in_session = ss;
          driver = up;
        })
      ]
