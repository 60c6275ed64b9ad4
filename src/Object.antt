-- ===== src/Object.antt =====
-- signal_test/object.h and object.c: the executable mappings of the process and what is asked of them.
pub mod Ranges
pub mod Parse
pub mod Hex
pub mod Line
pub mod Maps
pub mod Address
pub mod Entry
mod Examples
use atrace.Prelude.{
  ℕ, ◌+◌, ◌-◌, ◌≡◌, Bool, true, false, not, ◌&&◌, Option, none, some, List, [], ◌∷◌, ◌==◌, leb,
  if◌then◌else◌, bit_and, bit_or, Run, ok, fault, Fault, Status, success, minus,
}
use atrace.Linux.{ListOps}

-- The bytes from a pointer up to the NUL that ends the text, which is not one of them.
abbrev pub Text : Type 0
Text = List ℕ

-- `struct object`. `breakpoint_chain` holds pointers to breakpoints.
pub record Object : Type 0 where
  pub file_name : Text
  pub text_start : ℕ
  pub text_end : ℕ
  pub text_attr : ℕ
  pub breakpoint_chain : List ℕ

-- `0x1u << OBJ_ATTR_OFFSET_##name`
abbrev pub obj_attr_flag_private : ℕ
obj_attr_flag_private = 1

abbrev pub obj_attr_flag_execute : ℕ
obj_attr_flag_execute = 2

abbrev pub obj_attr_flag_write : ℕ
obj_attr_flag_write = 4

abbrev pub obj_attr_flag_read : ℕ
obj_attr_flag_read = 8

abbrev pub obj_attr_flag_no_bkpt : ℕ
obj_attr_flag_no_bkpt = 16

-- `object_attr_set_##name`, `object_attr_clr_##name` and `object_attr_flag_##name`, at a flag.
unfoldable pub object_attr_set : ℕ → Object → Object
object_attr_set flag obj = record obj { text_attr = bit_or obj.text_attr flag }

unfoldable pub object_attr_clr : ℕ → Object → Object
object_attr_clr flag obj = record obj { text_attr = bit_and obj.text_attr (255 - flag) }

unfoldable pub object_attr_flag : ℕ → Object → Bool
object_attr_flag flag obj = not (bit_and obj.text_attr flag == 0)

-- An object as `calloc` clears it.
abbrev pub cleared : Object
cleared = record {
  file_name = [];
  text_start = 0;
  text_end = 0;
  text_attr = 0;
  breakpoint_chain = [];
}

-- `calloc` fails or clears the object.
unfoldable pub object_new : Bool → Run Object
object_new false = fault Fault.aborted
object_new true = ok cleared

-- `strcmp(a, b) == 0`
abbrev pub strcmp_eq : Text → Text → Bool
strcmp_eq [] [] = true
strcmp_eq (x ∷ xs) (y ∷ ys) = x == y && strcmp_eq xs ys
strcmp_eq _ _ = false

unfoldable pub object_get_by_file : Text → List Object → Option Object
object_get_by_file filename [] = none
object_get_by_file filename (curr_obj ∷ rest) =
    if strcmp_eq filename curr_obj.file_name
    then some curr_obj
    else object_get_by_file filename rest

unfoldable pub object_get_by_address : ℕ → List Object → Option Object
object_get_by_address addr [] = none
object_get_by_address addr (curr_obj ∷ rest) =
    if leb curr_obj.text_start addr && leb addr curr_obj.text_end
    then some curr_obj
    else object_get_by_address addr rest
