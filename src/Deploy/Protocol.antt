-- ===== src/Deploy/Protocol.antt =====
-- The order of the calls of internal/deploy/rollout.go, as an automaton that reads a trace.
use panely.Kit.{
  ℕ, ◌≡◌, String, Bool, not, ◌&&◌, Option, none, some, List, [], ◌∷◌, ltb, leb, ◌==◌, ◌=ₛ◌,
  if◌then◌else◌,
}
use panely.Records.{App}
use panely.Deploy.World.{
  Call, ensure_network, create_replica, start_replica, stop_replica, stop_release, set_active, load,
  sleep,
}

-- Before the switch; the release is written as active; the proxy has its routes; the drain window is over.
pub data Phase : Type 0 where
  preparing activated loaded drained : Phase

module _ (app : App) (rel : String) (window : ℕ) where
  -- A replica that the release is to have.
  abbrev pub wanted : String → String → ℕ → Bool
  wanted a r i = a =ₛ app.id && r =ₛ rel && ltb i app.replicas

  -- The one call that each phase allows besides its own, and where it leads; `none` is a breach.
  -- Replicas that are wanted may be created and started, and others of the release stopped, before
  -- the switch only; other releases may be stopped after the window only, and this one never.
  abbrev pub next : Phase → Call → Option Phase
  next preparing (ensure_network a) = if a =ₛ app.id then some preparing else none
  next preparing (create_replica o) =
      if wanted o.app_id o.release_id o.index then some preparing else none
  next preparing (start_replica a r i) = if wanted a r i then some preparing else none
  next preparing (stop_replica a r i) =
      if a =ₛ app.id && r =ₛ rel && leb app.replicas i then some preparing else none
  next preparing (sleep d) = some preparing
  next preparing (set_active a r) = if a =ₛ app.id && r =ₛ rel then some activated else none
  next activated (load cfg) = some loaded
  next loaded (sleep d) = if d == window then some drained else none
  next drained (stop_release a r) =
      if a =ₛ app.id && not (r =ₛ rel) && not (r =ₛ "") then some drained else none
  next _ _ = none

  abbrev pub advance : Option Phase → Call → Option Phase
  advance none c = none
  advance (some p) c = next p c

  -- The phase that a trace has led to, the newest call first, from the phase before it.
  abbrev pub phase : List Call → Option Phase
  phase [] = some preparing
  phase (c ∷ cs) = advance (phase cs) c

  -- The trace keeps the protocol and has led to this phase.
  abbrev pub At : Phase → List Call → Type 0
  At p cs = phase cs ≡ some p
