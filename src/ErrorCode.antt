-- ===== src/ErrorCode.antt =====
-- include/error.h and src/error.c: error codes of 32 bits, and the table of their messages. A code of
-- `error_t` stands as its bit pattern.
pub mod Laws
mod Examples
use atrace.Prelude.{
  ℕ, zero, suc, ◌+◌, ◌-◌, ◌*◌, ◌/◌, ◌%◌, ◌^◌, ◌≡◌, Option, none, some, List, [], ◌∷◌, ◌==◌,
  if◌then◌else◌, get_elem?, bit_and, bit_or, Run, ok, fault, Fault, ◌>>=◌,
}

abbrev pub module_size : ℕ
module_size = 4

abbrev pub err_data_size : ℕ
err_data_size = 32

-- SYSTEM, THREAD, BREAKPOINT, CONTEXT and OBJECT, and behind them MODULE_MAX.
abbrev pub module_max : ℕ
module_max = 5

-- A code as a module writes it, of either sign.
pub data Code : Type 0 where
  plus : ℕ → Code
  minus : ℕ → Code

-- `(CODE) > 0 ? (CODE) : -(CODE)`
abbrev pub magnitude : Code → ℕ
magnitude (plus n) = n
magnitude (minus n) = n

-- `GEN_ERR_CODE`
unfoldable pub gen_err_code : ℕ → Code → ℕ
gen_err_code module_id code =
    bit_or
      (bit_or (1 * 2 ^ (err_data_size - 1))
        (bit_and module_id (2 ^ module_size - 1) * 2 ^ (err_data_size - module_size - 1)))
      (bit_and (magnitude code) (2 ^ (err_data_size - module_size - 1) - 1))

-- `module_code_table`: the descriptions of each module, which the modules define, with NULL at `MODULE_MAX`.
abbrev pub Table {ℓ} : Type ℓ → Type ℓ
Table Text = List (List Text)

unfoldable pub module_entry {ℓ} : {Text : Type ℓ} → Table Text → ℕ → Run (List Text)
module_entry [] zero = fault Fault.null_deref
module_entry [] (suc i) = fault Fault.out_of_bounds
module_entry (t ∷ ts) zero = ok t
module_entry (t ∷ ts) (suc i) = module_entry ts i

abbrev pub entry {ℓ} : {Text : Type ℓ} → Option Text → Run Text
entry none = fault Fault.out_of_bounds
entry (some msg) = ok msg

-- `error_to_msg`; `blank` is the string that it returns for 0.
unfoldable pub error_to_msg {ℓ} : {Text : Type ℓ} → Text → Table Text → ℕ → Run Text
error_to_msg blank table errcode =
    if errcode == 0
    then ok blank
    else (module_entry table
          (bit_and (errcode / 2 ^ (err_data_size - module_size - 1)) (2 ^ module_size - 1))
        >>= λ next.
            entry (get_elem? next (bit_and errcode (2 ^ (err_data_size - module_size - 1) - 1))))
