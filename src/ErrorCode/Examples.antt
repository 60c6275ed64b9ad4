-- ===== src/ErrorCode/Examples.antt =====
-- Runs of the error codes, and their theorems at concrete inputs.
use atrace.Prelude.{ℕ, ◌≡◌, refl, arith, [], ◌∷◌, ok, fault, Fault}
use atrace.ErrorCode.{plus, minus, Table, magnitude, gen_err_code, error_to_msg, module_entry}
use atrace.ErrorCode.Laws.{gen_err_code_inj, error_to_msg-gen_err_code}

-- Texts stand as numbers: two modules with two messages each.
abbrev table : Table ℕ
table = (10 ∷ 11 ∷ []) ∷ (20 ∷ 21 ∷ []) ∷ []

no_module : error_to_msg 0 table (gen_err_code 4 (plus 1)) ≡ fault Fault.out_of_bounds
unfolding error_to_msg gen_err_code module_entry
no_module = refl

same_code : gen_err_code 3 (plus 5) ≡ gen_err_code 3 (minus 5)
unfolding gen_err_code
same_code = refl

gen_err_code_inj_example : (magnitude (plus 3) ≡ 3) × (magnitude (plus 5) ≡ magnitude (minus 5))
gen_err_code_inj_example =
    gen_err_code_inj 3 3 (plus 5) (minus 5) (omega arith) (omega arith) (omega arith) (omega arith)
      same_code

error_to_msg-gen_err_code_example : error_to_msg 0 table (gen_err_code 1 (minus 1)) ≡ ok 21
error_to_msg-gen_err_code_example =
    error_to_msg-gen_err_code 0 table 1 (minus 1) (omega arith) (omega arith)
