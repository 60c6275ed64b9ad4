-- ===== src/ErrorCode/Laws.antt =====
-- What an error code carries, and the message that is found for it.
use atrace.Prelude.{
  Bool, true, zero, suc, Option, none, some, List, [], ◌∷◌, length, Run, ok, fault, Fault, ℕ, ◌+◌,
  ◌-◌, ◌*◌, ◌/◌, ◌%◌, ◌^◌, ◌<◌, ◌≡◌, refl, sym, ap, ◌∙◌, arith, false, ◌==◌, get_elem?, bit_and,
  bit_or, ◌>>=◌,
}
use atrace.Prelude.Bits.{bit_or-shifted, bit_and-mask, low-four, low-twenty_seven}
use atrace.ErrorCode.{Code, Table, magnitude, gen_err_code, module_entry, entry, error_to_msg}

four_bits : (x : ℕ) → bit_and x (2 ^ 4 - 1) ≡ x % 2 ^ 4
four_bits x = bit_and-mask 4 x ∙ low-four x

low_bits : (x : ℕ) → bit_and x (2 ^ 27 - 1) ≡ x % 2 ^ 27
low_bits x = bit_and-mask 27 x ∙ low-twenty_seven x

-- Bit 31, the module in the four bits below it, and the code in the other 27.
gen_err_code-sum :
    (module_id : ℕ) (code : Code)
    → gen_err_code module_id code ≡ 2 ^ 31 + module_id % 16 * 2 ^ 27 + magnitude code % 2 ^ 27
unfolding gen_err_code
gen_err_code-sum module_id code =
    let c = magnitude code in
    let small : module_id % 16 * 2 ^ 27 < 2 ^ 31 = omega arith in
    let high = bit_or-shifted 31 1 (module_id % 16 * 2 ^ 27) small in
    rw (four_bits module_id, low_bits c, high)
      (ap (λ (t : ℕ). bit_or t (c % 2 ^ 27)) (omega arith)
        ∙ bit_or-shifted 27 (16 + module_id % 16) (c % 2 ^ 27) (omega arith)
        ∙ omega arith)

-- Two error codes are equal only if their modules and the magnitudes of their codes are, where a
-- module is below 16 and a magnitude below 2 ^ 27.
pub gen_err_code_inj :
    (m n : ℕ) (c d : Code)
    → m < 16
    → n < 16
    → magnitude c < 2 ^ 27
    → magnitude d < 2 ^ 27
    → gen_err_code m c ≡ gen_err_code n d
    → (m ≡ n) × (magnitude c ≡ magnitude d)
gen_err_code_inj m n c d hm hn hc hd e =
    let sums = sym (gen_err_code-sum m c) ∙ e ∙ gen_err_code-sum n d in (omega arith, omega arith)

-- What a table of messages holds for a module and a code: the message; a read out of bounds where the module has none, or
-- where the module is beyond `MODULE_MAX`; and NULL, which is followed, where the module is `MODULE_MAX`.
abbrev pub message_of {ℓ} : {Text : Type ℓ} → Option Text → Run Text
message_of none = fault Fault.out_of_bounds
message_of (some msg) = ok msg

abbrev pub message_behind {ℓ} : {Text : Type ℓ} → Bool → Option (List Text) → ℕ → Run Text
message_behind true none n = fault Fault.null_deref
message_behind false none n = fault Fault.out_of_bounds
message_behind last (some messages) n = message_of (get_elem? messages n)

abbrev pub message_at {ℓ} : {Text : Type ℓ} → Table Text → ℕ → ℕ → Run Text
message_at table module_id n =
    message_behind (module_id == length table) (get_elem? table module_id) n

entry-message_of {ℓ} : {Text : Type ℓ} (found : Option Text) → entry found ≡ message_of found
entry-message_of none = refl
entry-message_of (some msg) = refl

message_behind-some {ℓ} :
    {Text : Type ℓ} (last : Bool) (messages : List Text) (n : ℕ)
    → message_behind last (some messages) n ≡ message_of (get_elem? messages n)
message_behind-some true messages n = refl
message_behind-some false messages n = refl

module_entry-message_at {ℓ} :
    {Text : Type ℓ} (table : Table Text) (module_id n : ℕ)
    → (module_entry table module_id >>= λ next. entry (get_elem? next n))
      ≡ message_at table module_id n
unfolding module_entry
module_entry-message_at [] zero n = refl
module_entry-message_at [] (suc i) n =
    let beyond : (suc i == 0) ≡ false = ground arith in rw beyond refl
module_entry-message_at (t ∷ ts) zero n =
    entry-message_of (get_elem? t n) ∙ sym (message_behind-some (0 == suc (length ts)) t n)
module_entry-message_at (t ∷ ts) (suc i) n =
    let same : (i == length ts) ≡ (suc i == suc (length ts)) = ground arith in
    module_entry-message_at ts i n ∙ ap (λ b. message_behind b (get_elem? ts i) n) same

-- Where a module is below 16 and the magnitude of a code below 2 ^ 27, error_to_msg on the generated code
-- gives the message at the code's magnitude in the descriptions of its module; where the module has no such
-- message the read is out of bounds, as it is for a module behind the end of the table, and at the end of the
-- table NULL is followed.
pub error_to_msg-gen_err_code {ℓ} :
    {Text : Type ℓ} (blank : Text) (table : Table Text) (module_id : ℕ) (code : Code)
    → module_id < 16
    → magnitude code < 2 ^ 27
    → error_to_msg blank table (gen_err_code module_id code)
      ≡ message_at table module_id (magnitude code)
unfolding error_to_msg
error_to_msg-gen_err_code blank table module_id code hm hc =
    let c = magnitude code in
    let sum : gen_err_code module_id code ≡ 2 ^ 31 + module_id * 2 ^ 27 + c =
      gen_err_code-sum module_id code ∙ omega arith in
    let nonzero : (gen_err_code module_id code == 0) ≡ false = ground arith in
    let module_bits : bit_and (gen_err_code module_id code / 2 ^ 27) 15 ≡ module_id =
      four_bits (gen_err_code module_id code / 2 ^ 27) ∙ omega arith in
    let code_bits : bit_and (gen_err_code module_id code) (2 ^ 27 - 1) ≡ c =
      low_bits (gen_err_code module_id code) ∙ omega arith in
    rw (nonzero, module_bits, code_bits) (module_entry-message_at table module_id c)
