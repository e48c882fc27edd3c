-- ===== src/Store/Tests.antt =====
-- Activations of one app, and the theorems on them.
use panely.Kit.{◌≡◌, ◌≢◌, ◌⊎◌, refl, true, none, some, List, [], ◌∷◌, ok}
use panely.Store.Deployments.{
  DeploymentRow, Runs, opened, open_release, close_open, last_closed, set_active_release,
  previous_active_release,
}
use panely.Store.History.{IsHistory, Activated, set_active_release-Activated}

abbrev all_run : Runs
all_run = record { begin = true; select = true; update = true; insertion = true; commit = true }

-- r5 is live and was before; a rollback to r3 makes r5 the next target, not r2.
abbrev at_five : List DeploymentRow
at_five = opened 50 "blog" "r5" ∷ []

rolls_back_to_five :
    previous_active_release true "blog" (set_active_release all_run 60 "blog" "r3" at_five).1
    ≡ ok "r5"
unfolding previous_active_release last_closed set_active_release open_release close_open
rolls_back_to_five = refl

at_five-IsHistory : IsHistory at_five
unfolding open_release
at_five-IsHistory = (refl, tt, tt)

set_active_release-Activated_example :
    let (e, rows') = set_active_release all_run 60 "blog" "r3" at_five in
    ((e ≢ none) × (rows' ≡ at_five))
    ⊎ (((e ≡ none) × (open_release "blog" at_five ≡ some "r3") × (rows' ≡ at_five))
        ⊎ ((e ≡ none)
            × (open_release "blog" at_five ≢ some "r3")
            × Activated "blog" "r3" at_five rows'))
set_active_release-Activated_example =
    set_active_release-Activated all_run 60 "blog" "r3" at_five at_five-IsHistory
