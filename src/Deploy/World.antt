-- ===== src/Deploy/World.antt =====
-- What internal/deploy calls: `Lifecycle`, `Activations`, `Prober`, `Clock` of rollout.go and
-- `Deployments`, `Proxy` of reconcile.go, over states `W` of the world outside. Errors are texts, and `none`
-- is `nil`. The calls that change something, and the waits, are also written to a
-- trace, the newest first, since the theorems speak of their order.
use panely.Kit.{ℕ, String, Option, List, ◌∷◌, Result}
use panely.Records.{Deployment, Replica, CreateReplicaOptions}
use panely.Proxy.Config.{Config}

pub data Call : Type 0 where
  ensure_network : String → Call
  create_replica : CreateReplicaOptions → Call
  start_replica : String → String → ℕ → Call
  stop_replica : String → String → ℕ → Call
  stop_release : String → String → Call
  set_active : String → String → Call
  load : Config → Call
  sleep : ℕ → Call

pub record Env (W : Type 0) : Type 0 where
  pub perform : Call → W → Option String × W
  pub list_replicas : String → W → Result String (List Replica) × W
  pub probe : String → ℕ → String → W → Option String × W
  pub now : W → ℕ × W
  pub active_deployments : W → Result String (List Deployment) × W
  pub current : W → Result String Config × W

pub record World (W : Type 0) : Type 0 where
  pub outside : W
  pub trace : List Call

-- A result, and the world after it.
abbrev pub Run : Type 0 → Type 0 → Type 0
Run W A = World W → A × World W

module _ {W : Type 0} (env : Env W) where
  abbrev pub do_call : Call → Run W (Option String)
  do_call c w =
      let (e, outside) = env.perform c w.outside in
      (e, record { outside = outside; trace = c ∷ w.trace })

  abbrev pub listing : String → Run W (Result String (List Replica))
  listing app_id w =
      let (r, outside) = env.list_replicas app_id w.outside in (r, record w { outside = outside })

  abbrev pub probing : String → ℕ → String → Run W (Option String)
  probing ip port path w =
      let (e, outside) = env.probe ip port path w.outside in (e, record w { outside = outside })

  abbrev pub reading_clock : Run W ℕ
  reading_clock w = let (t, outside) = env.now w.outside in (t, record w { outside = outside })
