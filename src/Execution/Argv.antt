-- ===== src/Execution/Argv.antt =====
-- `ArgvGuard` and `validateExecutionLimits` of packages/execution/src/index.ts. A number is a whole one
-- or any other; texts are lists of code points in the regular expressions.
pub mod Safety
pub mod Equivalence
use Prim.Native.String.{len}
use vibe_go.Base.{
  ℕ, String, Bool, true, false, not, ◌&&◌, ◌||◌, Option, none, some, List, [], ◌∷◌, ◌==◌, ◌=s◌, ltb,
  leb, if◌then◌else◌, length, max_safe_integer,
}
use vibe_go.Base.Text.{codes, all_in, some_in, between, is_letter, is_digit, is_line_end}

pub data ArgvGuardErrorCode : Type 0 where
  argv_empty argv_invalid nul_byte control_character shell_disabled : ArgvGuardErrorCode
  shell_metacharacter env_not_allowed env_invalid limit_invalid : ArgvGuardErrorCode

-- What is returned, or the code of the error that is thrown.
pub data Guarded {ℓ} (A : Type ℓ) : Type ℓ where
  passes : A → Guarded A
  refused : ArgvGuardErrorCode → Guarded A

pub data Number : Type 0 where
  whole : ℕ → Number
  other_number : Number

abbrev pub Entries : Type 0
Entries = List (String × Option String)

-- The options as they are read: an option that is missing and one that is undefined are the same.
pub record Config : Type 0 where
  pub allowed_env : Option (List String)
  pub env : Option Entries
  pub shell : Option Bool
  pub allow_shell_metacharacters : Option Bool
  pub max_args : Option Number
  pub max_arg_bytes : Option Number

-- The options of a call: a key that is there with an undefined value is `some none`.
pub record ArgvGuardOptions : Type 0 where
  pub allowed_env : Option (List String)
  pub env : Option Entries
  pub shell : Option (Option Bool)
  pub allow_shell_metacharacters : Option (Option Bool)
  pub max_args : Option (Option Number)
  pub max_arg_bytes : Option (Option Number)

pub record ValidatedArgv : Type 0 where
  pub argv : List String
  pub shell : Bool
  pub env : List (String × String)

abbrev pub spread {ℓ} : {A : Type ℓ} → Option (Option A) → Option A → Option A
spread none default_value = default_value
spread (some given) default_value = given

abbrev pub or_default {ℓ} : {A : Type ℓ} → Option A → Option A → Option A
or_default none default_value = default_value
or_default (some given) default_value = some given

unfoldable pub merge_options : Config → ArgvGuardOptions → Config
merge_options defaults options = record {
  allowed_env = or_default options.allowed_env defaults.allowed_env;
  env = or_default options.env defaults.env;
  shell = spread options.shell defaults.shell;
  allow_shell_metacharacters =
      spread options.allow_shell_metacharacters defaults.allow_shell_metacharacters;
  max_args = spread options.max_args defaults.max_args;
  max_arg_bytes = spread options.max_arg_bytes defaults.max_arg_bytes;
}

abbrev pub is_true : Option Bool → Bool
is_true (some true) = true
is_true _ = false

-- `Number.isSafeInteger(n) && n > 0`
abbrev pub is_limit : Number → Bool
is_limit (whole n) = leb n max_safe_integer && ltb 0 n
is_limit other_number = false

abbrev pub limit_of : ℕ → Option Number → Number
limit_of default_value none = whole default_value
limit_of default_value (some n) = n

-- The value of a limit that has passed `is_limit`.
abbrev pub value_of : Number → ℕ
value_of (whole n) = n
value_of other_number = 0

abbrev pub is_nul : ℕ → Bool
is_nul c = c == 0

abbrev pub is_control : ℕ → Bool
is_control c =
    between 1 8 c
    || (c == 11)
    || (c == 12)
    || between 14 31 c
    || (c == 127)
    || (c == 13)
    || (c == 10)

-- `SHELL_METACHARACTER`
abbrev pub is_shell_character : ℕ → Bool
is_shell_character c =
    (c == b';')
    || (c == b'&')
    || (c == b'|')
    || (c == b'<')
    || (c == b'>')
    || (c == b'`')
    || (c == b'$')
    || (c == b'(')
    || (c == b')')

-- The tests on one argument.
unfoldable pub check_arg : Bool → ℕ → String → Option ArgvGuardErrorCode
check_arg allow most v =
    if some_in is_nul (codes v)
    then some nul_byte
    else if some_in is_control (codes v)
    then some control_character
    else if not allow && some_in is_shell_character (codes v)
    then some shell_metacharacter
    else if ltb most (len v)
    then some argv_invalid
    else none

unfoldable pub validate_args : Bool → ℕ → List String → Guarded (List String)
validate_args allow most [] = passes []
validate_args allow most (v ∷ vs) =
    let rest = validate_args allow most vs in
    elim (check_arg allow most v) [
      | some code ↦ refused code
      | none ↦ elim rest [ refused code ↦ refused code | passes ws ↦ passes (v ∷ ws) ]
    ]

abbrev pub is_name_start : ℕ → Bool
is_name_start c = is_letter c || (c == b'_')

abbrev pub is_name_character : ℕ → Bool
is_name_character c = is_name_start c || is_digit c

abbrev pub name_of_codes : List ℕ → Bool
name_of_codes [] = false
name_of_codes (c ∷ cs) = is_name_start c && all_in is_name_character cs

abbrev pub is_in : String → List String → Bool
is_in k [] = false
is_in k (s ∷ ss) = (k =s s) || is_in k ss

-- The tests on one entry before its value is read.
abbrev pub check_key : List String → String → Option ArgvGuardErrorCode
check_key allowed k =
    if not (is_in k allowed)
    then some env_not_allowed
    else if not (name_of_codes (codes k))
    then some env_invalid
    else none

abbrev pub check_value : String → Option ArgvGuardErrorCode
check_value v =
    if some_in is_nul (codes v)
    then some nul_byte
    else if some_in is_line_end (codes v)
    then some control_character
    else none

-- An assignment of a text to the key `__proto__` of an object leaves the object as it is.
abbrev pub assign : String → String → List (String × String) → List (String × String)
assign k v es = if k =s "__proto__" then es else (k, v) ∷ es

unfoldable pub validate_env : List String → Entries → Guarded (List (String × String))
validate_env allowed [] = passes []
validate_env allowed ((k, none) ∷ es) =
    let rest = validate_env allowed es in
    elim (check_key allowed k) [ some code ↦ refused code | none ↦ rest ]
validate_env allowed ((k, some v) ∷ es) =
    let rest = validate_env allowed es in
    elim (check_key allowed k) [
      | some code ↦ refused code
      | none ↦ elim (check_value v) [
        | some code ↦ refused code
        | none ↦ elim rest [ refused code ↦ refused code | passes vs ↦ passes (assign k v vs) ]
      ]
    ]

abbrev pub to_allowed_env : Option (List String) → List String
to_allowed_env none = []
to_allowed_env (some names) = names

abbrev pub entries_of : Option Entries → Entries
entries_of none = []
entries_of (some es) = es

-- The tests before the first argument is read.
abbrev pub check_config : Config → List String → Option ArgvGuardErrorCode
check_config c argv =
    if is_true c.shell
    then some shell_disabled
    else if length argv == 0
    then some argv_empty
    else if not (is_limit (limit_of 128 c.max_args))
        || not (is_limit (limit_of 65536 c.max_arg_bytes))
    then some limit_invalid
    else if ltb (value_of (limit_of 128 c.max_args)) (length argv)
    then some argv_invalid
    else none

unfoldable pub validate_with : Config → List String → Guarded ValidatedArgv
validate_with c argv = elim (check_config c argv) [
  | some code ↦ refused code
  | none ↦
      elim (validate_args (is_true c.allow_shell_metacharacters)
        (value_of (limit_of 65536 c.max_arg_bytes)) argv) [
          | refused code ↦ refused code
          | passes args ↦ elim (validate_env (to_allowed_env c.allowed_env) (entries_of c.env)) [
            | refused code ↦ refused code
            | passes vars ↦ passes (record { argv = args; shell = false; env = vars })
          ]
        ]
]

unfoldable pub validate : Config → ArgvGuardOptions → List String → Guarded ValidatedArgv
validate defaults options argv = validate_with (merge_options defaults options) argv

pub record ExecutionLimits : Type 0 where
  pub timeout_ms : Number
  pub max_output_bytes : Number

unfoldable pub validate_execution_limits : ExecutionLimits → Guarded ExecutionLimits
validate_execution_limits limits =
    if not (is_limit limits.timeout_ms) || not (is_limit limits.max_output_bytes)
    then refused limit_invalid
    else passes limits
