-- ===== src/Socket/Lifecycle.antt =====
-- What starting and stopping a server leaves at the socket's path.
use mail_router.Prelude.{ℕ, ◌+◌, ◌≡◌, refl, false, none, some, Option-cases, inl, inr}
use mail_router.Exec.{ok}
use mail_router.Socket.{Site, closed_server, listening, start, serve_forever, stop}

-- Starting with no call failing, whatever stood at the path.
pub started :
    (s : Site)
    → ((n : ℕ) → s.fails n ≡ false)
    → (v : Site) × (start s ≡ (ok tt, v))
      × (v.server ≡ some listening)
      × (v.entry ≡ some s.socket_mode)
      × (v.fails ≡ s.fails)
unfolding start
started s up = elim (Option-cases s.entry) [
  | inl e ↦
      rw (up s.tick, e, up (s.tick + 1), up (s.tick + 1 + 1), up (s.tick + 1 + 1 + 1))
        (_, refl, refl, refl, refl)
  | inr (m, e) ↦
      rw (up s.tick, e, up (s.tick + 1), up (s.tick + 1 + 1), up (s.tick + 1 + 1 + 1))
        (_, refl, refl, refl, refl)
]

-- Stopping it, with no call failing, frees the path.
pub stopped :
    (v : Site) (m : ℕ)
    → ((n : ℕ) → v.fails n ≡ false)
    → v.server ≡ some listening
    → v.entry ≡ some m
    → (u : Site) × (stop (serve_forever v).1 ≡ (ok tt, u))
      × (u.entry ≡ none)
      × (u.server ≡ some closed_server)
unfolding serve_forever stop
stopped v m up server entry = rw (server, entry, up v.tick) (_, refl, refl, refl)
