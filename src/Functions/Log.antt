-- ===== src/Functions/Log.antt =====
-- What the emitter of src/functions.cpp has been told, read back from the log of emissions.
use node_gemfire.Base.{
  ◌≡◌, refl, sym, ap, ◌∙◌, Bool, true, false, ◌||◌, List, [], ◌∷◌, ◌++◌, map, append-nil,
  append_assoc, arith, Option, none, some,
}
use node_gemfire.Functions.Stream.{copy_results}
use node_gemfire.Functions.Worker.{
  Emission, data_event, error_event, failure, end_event, emission, emit_results, Worker,
  report_exception,
}

abbrev pub to_list : {A : Type 0} → Option A → List A
to_list none = []
to_list (some a) = a ∷ []

abbrev pub is_some : {A : Type 0} → Option A → Bool
is_some none = false
is_some (some a) = true

module _ {V E : Type 0} where
  -- The results among the emissions, in order.
  abbrev pub payloads : List (Emission V E) → List V
  payloads [] = []
  payloads (data_event v ∷ log) = v ∷ payloads log
  payloads (error_event v ∷ log) = v ∷ payloads log
  payloads (failure e ∷ log) = payloads log
  payloads (end_event ∷ log) = payloads log

  -- All emissions but the report of an exception of `execute`.
  abbrev pub told : List (Emission V E) → List (Emission V E)
  told [] = []
  told (failure e ∷ log) = told log
  told (data_event v ∷ log) = data_event v ∷ told log
  told (error_event v ∷ log) = error_event v ∷ told log
  told (end_event ∷ log) = end_event ∷ told log

  abbrev pub has_end : List (Emission V E) → Bool
  has_end [] = false
  has_end (end_event ∷ log) = true
  has_end (x ∷ log) = has_end log

  abbrev pub has_failure : List (Emission V E) → Bool
  has_failure [] = false
  has_failure (failure e ∷ log) = true
  has_failure (x ∷ log) = has_failure log

  -- The exceptions of `execute` that were reported.
  abbrev pub failures : List (Emission V E) → List E
  failures [] = []
  failures (failure e ∷ log) = e ∷ failures log
  failures (data_event v ∷ log) = failures log
  failures (error_event v ∷ log) = failures log
  failures (end_event ∷ log) = failures log

  pub failures-append :
      (xs ys : List (Emission V E)) → failures (xs ++ ys) ≡ failures xs ++ failures ys
  failures-append [] ys = refl
  failures-append (failure e ∷ xs) ys = ap (◌∷◌ e) (failures-append xs ys)
  failures-append (data_event v ∷ xs) ys = failures-append xs ys
  failures-append (error_event v ∷ xs) ys = failures-append xs ys
  failures-append (end_event ∷ xs) ys = failures-append xs ys

  pub told-eq_self : (log : List (Emission V E)) → failures log ≡ [] → told log ≡ log
  told-eq_self [] h = refl
  told-eq_self (failure e ∷ log) h = cc
  told-eq_self (data_event v ∷ log) h = ap (◌∷◌ (data_event v)) (told-eq_self log h)
  told-eq_self (error_event v ∷ log) h = ap (◌∷◌ (error_event v)) (told-eq_self log h)
  told-eq_self (end_event ∷ log) h = ap (◌∷◌ end_event) (told-eq_self log h)

  pub payloads-append :
      (xs ys : List (Emission V E)) → payloads (xs ++ ys) ≡ payloads xs ++ payloads ys
  payloads-append [] ys = refl
  payloads-append (data_event v ∷ xs) ys = ap (◌∷◌ v) (payloads-append xs ys)
  payloads-append (error_event v ∷ xs) ys = ap (◌∷◌ v) (payloads-append xs ys)
  payloads-append (failure e ∷ xs) ys = payloads-append xs ys
  payloads-append (end_event ∷ xs) ys = payloads-append xs ys

  pub told-append : (xs ys : List (Emission V E)) → told (xs ++ ys) ≡ told xs ++ told ys
  told-append [] ys = refl
  told-append (failure e ∷ xs) ys = told-append xs ys
  told-append (data_event v ∷ xs) ys = ap (◌∷◌ (data_event v)) (told-append xs ys)
  told-append (error_event v ∷ xs) ys = ap (◌∷◌ (error_event v)) (told-append xs ys)
  told-append (end_event ∷ xs) ys = ap (◌∷◌ end_event) (told-append xs ys)

  pub has_end-append :
      (xs ys : List (Emission V E)) → has_end (xs ++ ys) ≡ (has_end xs || has_end ys)
  has_end-append [] ys = refl
  has_end-append (end_event ∷ xs) ys = refl
  has_end-append (data_event v ∷ xs) ys = has_end-append xs ys
  has_end-append (error_event v ∷ xs) ys = has_end-append xs ys
  has_end-append (failure e ∷ xs) ys = has_end-append xs ys

  pub has_failure-append :
      (xs ys : List (Emission V E)) → has_failure (xs ++ ys) ≡ (has_failure xs || has_failure ys)
  has_failure-append [] ys = refl
  has_failure-append (failure e ∷ xs) ys = refl
  has_failure-append (data_event v ∷ xs) ys = has_failure-append xs ys
  has_failure-append (error_event v ∷ xs) ys = has_failure-append xs ys
  has_failure-append (end_event ∷ xs) ys = has_failure-append xs ys

  -- The report of an exception is the only emission of `ExecuteComplete`, and `told` leaves it out.
  pub report_exception_log :
      (o : Option E) (w : Worker V E)
      → let log = (report_exception o w).emitted in
        (payloads log ≡ payloads w.emitted)
        × (told log ≡ told w.emitted)
        × (has_end log ≡ has_end w.emitted)
        × (has_failure log ≡ (has_failure w.emitted || is_some o))
        × (failures log ≡ failures w.emitted ++ to_list o)
        × ((report_exception o w).ended ≡ (w.ended || is_some o))
        × ((report_exception o w).stream ≡ w.stream)
        × ((report_exception o w).exception ≡ w.exception)
        × ((report_exception o w).deleted ≡ w.deleted)
  unfolding report_exception
  report_exception_log none w = ground (arith, append-nil (failures w.emitted))
  report_exception_log (some e) w = ground (
    arith,
    payloads-append w.emitted (failure e ∷ []),
    told-append w.emitted (failure e ∷ []),
    has_end-append w.emitted (failure e ∷ []),
    has_failure-append w.emitted (failure e ∷ []),
    failures-append w.emitted (failure e ∷ []),
    append-nil (payloads w.emitted),
    append-nil (told w.emitted),
  )

  module _ (is_error : V → Bool) where
    abbrev pub emissions : List V → List (Emission V E)
    emissions = map (emission is_error)

    pub emit_results_lem :
        (vs : List V) (log : List (Emission V E))
        → emit_results is_error vs log ≡ log ++ emissions vs
    unfolding emit_results
    emit_results_lem [] log = sym (append-nil log)
    emit_results_lem (v ∷ vs) log =
        emit_results_lem vs (log ++ emission is_error v ∷ []) ∙ append_assoc log _ _

    pub told-emissions : (vs : List V) → told (emissions vs) ≡ emissions vs
    unfolding emission
    told-emissions [] = refl
    told-emissions (v ∷ vs) = ground (arith, told-emissions vs)

module _ {V : Type 0} (E : Type 0) (is_error : V → Bool) where
  pub payloads-emissions : (vs : List V) → payloads (emissions {E = E} is_error vs) ≡ vs
  unfolding emission
  payloads-emissions [] = refl
  payloads-emissions (v ∷ vs) = ground (arith, payloads-emissions vs)

  pub has_end-emissions : (vs : List V) → has_end (emissions {E = E} is_error vs) ≡ false
  unfolding emission
  has_end-emissions [] = refl
  has_end-emissions (v ∷ vs) = ground (arith, has_end-emissions vs)

  pub has_failure-emissions : (vs : List V) → has_failure (emissions {E = E} is_error vs) ≡ false
  unfolding emission
  has_failure-emissions [] = refl
  has_failure-emissions (v ∷ vs) = ground (arith, has_failure-emissions vs)

module _ {V : Type 0} (E : Type 0) (is_error : V → Bool) where
  pub failures-emissions : (vs : List V) → failures (emissions {E = E} is_error vs) ≡ []
  unfolding emission
  failures-emissions [] = refl
  failures-emissions (v ∷ vs) = ground (arith, failures-emissions vs)

pub copy_results_lem : {V : Type 0} (copied vs : List V) → copy_results copied vs ≡ copied ++ vs
unfolding copy_results
copy_results_lem copied [] = sym (append-nil copied)
copy_results_lem copied (v ∷ vs) =
    copy_results_lem (copied ++ v ∷ []) vs ∙ append_assoc copied (v ∷ []) vs
