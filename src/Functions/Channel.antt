-- ===== src/Functions/Channel.antt =====
-- What executeFunction of src/functions.cpp promises, without threads, buffers and signals: results
-- queue up, leave the queue one by one in order as emissions, and the end is told once the queue is
-- empty; an exception may be told once at any time.
use node_gemfire.Base.{◌≡◌, subst, Bool, true, false, List, [], ◌∷◌, ◌++◌}
use node_gemfire.Functions.Worker.{Emission, failure, end_event, emission}

pub record Channel (V E : Type 0) : Type 0 where
  pub queue : List V
  pub log : List (Emission V E)
  pub over : Bool
  pub failed_once : Bool

abbrev pub opened : {V E : Type 0} → Channel V E
opened = record { queue = []; log = []; over = false; failed_once = false }

pub data Serves {V E : Type 0} (is_error : V → Bool) (c : Channel V E) : Channel V E → Type 0 where
  receives : (v : V) → c.over ≡ false → Serves is_error c (record c { queue = c.queue ++ v ∷ [] })
  delivers :
      (v : V) (rest : List V)
      → c.queue ≡ v ∷ rest
      → Serves is_error c (record c { queue = rest; log = c.log ++ emission is_error v ∷ [] })
  closes :
      c.queue ≡ []
      → c.over ≡ false
      → Serves is_error c (record c { log = c.log ++ end_event ∷ []; over = true })
  reports :
      (e : E)
      → c.failed_once ≡ false
      → Serves is_error c (record c { log = c.log ++ failure e ∷ []; failed_once = true })

-- Steps of the channel, one after the other.
pub data Served {V E : Type 0} (is_error : V → Bool) (c : Channel V E) : Channel V E → Type 0 where
  unserved : Served is_error c c
  served : {d e : Channel V E} → Served is_error c d → Serves is_error d e → Served is_error c e

module _ {V E : Type 0} {is_error : V → Bool} where
  pub Served-trans :
      {c d e : Channel V E} → Served is_error c d → Served is_error d e → Served is_error c e
  Served-trans p unserved = p
  Served-trans p (served q st) = served (Served-trans p q) st

  pub Served-subst :
      {c d : Channel V E} (e : Channel V E) → Served is_error c d → d ≡ e → Served is_error c e
  Served-subst {c} e p q = subst (Served is_error c) q p
