-- ===== src/Core/Outcome.antt =====
-- What a function of src/core/raft_core.c promises of the core it returns.
use turboraft.Prelude.{Bool, true, false, if◌then◌else◌}
use turboraft.Status.{Result, ok, err}
use turboraft.Core.{Core}

-- What holds of a core where a call returns one.
unfoldable pub OnOk : (Core → Type 0) → Result Core → Type 0
OnOk P (ok core) = P core
OnOk P (err e) = Unit

pub OnOk-weaken :
    (P Q : Core → Type 0) (r : Result Core) → ((c : Core) → P c → Q c) → OnOk P r → OnOk Q r
unfolding OnOk
OnOk-weaken P Q (ok c) f h = f c h
OnOk-weaken P Q (err e) f h = tt

pub OnOk-if :
    (P : Core → Type 0) (b : Bool) (x y : Result Core)
    → OnOk P x
    → OnOk P y
    → OnOk P (if b then x else y)
OnOk-if P true x y h k = h
OnOk-if P false x y h k = k
