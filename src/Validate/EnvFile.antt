-- ===== src/Validate/EnvFile.antt =====
-- The file extension.env: CheckExtensionEnvFormat and parseExtensionEnv in
-- packages/fcc-extension/tools/pkg/validate/checks.go.
use averlock.Prelude.{
  Bool, false, Option, none, some, List, [], ◌∷◌, ◌++◌, Bytes, codes, bytes_eq, is_empty, length,
  leb, ◌==◌, ◌||◌, if◌then◌else◌, ◌≡◌, refl, arith, Bool-cases, bytes_eq→eq, not, inl, inr,
}
use averlock.Tools.Report.{CheckResult, pass, fail, skip, has_failures}
use averlock.Text.{trim_space}
use averlock.Validate.{
  Site, text, quote, has_prefix, hex_regex, address_regex, extension_id_regex, check_result,
}

on_first : Bytes → List Bytes → List Bytes
on_first c [] = c ∷ []
on_first c (line ∷ lines) = (c ++ line) ∷ lines

-- the lines of a file without their newlines; the last one may have none
split_lines : Bytes → List Bytes
unfolding on_first
split_lines [] = []
split_lines (c ∷ s) =
    let more = split_lines s in if c == 10 then [] ∷ more else on_first (c ∷ []) more

-- the carriage return that bufio.ScanLines drops at the end of a line
drop_cr : Bytes → Bytes
drop_cr [] = []
drop_cr (c ∷ []) = if c == 13 then [] else c ∷ []
drop_cr (c ∷ d ∷ s) = c ∷ drop_cr (d ∷ s)

-- the lines before the first that does not fit into the buffer of a bufio.Scanner, 64 KiB
tokens : List Bytes → List Bytes
unfolding drop_cr
tokens [] = []
tokens (line ∷ lines) =
    let more = tokens lines in if leb (length line) 65535 then drop_cr line ∷ more else []

-- the text before and after the first `=`
cut_before : Bytes → Option (Bytes × Bytes) → Option (Bytes × Bytes)
cut_before c none = none
cut_before c (some (key, val)) = some (c ++ key, val)

-- `strings.SplitN(line, "=", 2)`, when it has two parts
split_entry : Bytes → Option (Bytes × Bytes)
unfolding cut_before
split_entry [] = none
split_entry (c ∷ s) =
    let more = split_entry s in if c == b'=' then some ([], s) else cut_before (c ∷ []) more

trim_both : Option (Bytes × Bytes) → Option (Bytes × Bytes)
trim_both none = none
trim_both (some (key, val)) = some (trim_space key, trim_space val)

-- a line's key and value: none for a blank line, a comment or a line without `=`
entry_of : Bytes → Option (Bytes × Bytes)
unfolding split_entry trim_both
entry_of token =
    let line = trim_space token in
    if is_empty line || has_prefix line (codes "#") then none else trim_both (split_entry line)

-- `vars`, the latest assignment first
abbrev pub Vars : Type 0
Vars = List (Bytes × Bytes)

-- `vars[key]`
unfoldable pub get : Bytes → Vars → Option Bytes
get k [] = none
get k ((key, val) ∷ vars) = if bytes_eq key k then some val else get k vars

set_entry : Option (Bytes × Bytes) → Vars → Vars
set_entry none vars = vars
set_entry (some entry) vars = entry ∷ vars

-- the loop of CheckExtensionEnvFormat
unfoldable pub read_vars : List Bytes → Vars → Vars
unfolding set_entry entry_of
read_vars [] vars = vars
read_vars (token ∷ rest) vars = read_vars rest (set_entry (entry_of token) vars)

-- the check of one variable
check_var : Bytes → (Bytes → Bool) → Option Bytes → CheckResult
check_var key valid none =
    check_result (codes "deploy") (codes "D7") (text (key ∷ codes " in extension.env" ∷ [])) fail
      (text (key ∷ codes " not found in extension.env" ∷ []))
      (codes "Delete config/extension.env and re-run scripts/pre-build.sh")
check_var key valid (some val) =
    if valid val
    then check_result (codes "deploy") (codes "D7") (text (key ∷ codes " in extension.env" ∷ []))
        pass val []
    else check_result (codes "deploy") (codes "D7") (text (key ∷ codes " in extension.env" ∷ []))
        fail (text (key ∷ codes " has invalid format: " ∷ quote val ∷ []))
        (codes "Delete config/extension.env and re-run scripts/pre-build.sh")

unfoldable pub vars_of : Bytes → Vars
unfolding tokens split_lines
vars_of content = read_vars (tokens (split_lines content)) []

-- the results for what os.Open gives
unfoldable pub format_results : Bytes → Option Bytes → List CheckResult
unfolding check_var
format_results path none =
    check_result (codes "deploy") (codes "D7") (codes "extension.env exists") skip
      (text (codes "file not found: " ∷ path ∷ [])) []
    ∷ []
format_results path (some content) =
    check_var (codes "INSTRUCTION_SENDER") address_regex
      (get (codes "INSTRUCTION_SENDER") (vars_of content))
    ∷ check_var (codes "EXTENSION_ID") extension_id_regex
        (get (codes "EXTENSION_ID") (vars_of content))
    ∷ []

-- CheckExtensionEnvFormat
unfoldable pub check_extension_env_format : Site → Bytes → List CheckResult
unfolding format_results
check_extension_env_format site path = format_results path (site.open_file path)

-- the two results of parseExtensionEnv; its error is always nil
pub record ExtensionEnv : Type 0 where
  pub extension_id : Bytes
  pub instruction_sender : Bytes

-- the switch on the key
switch_key : Option (Bytes × Bytes) → ExtensionEnv → ExtensionEnv
switch_key none e = e
switch_key (some (key, val)) e =
    if bytes_eq key (codes "EXTENSION_ID")
    then record e { extension_id = val }
    else if bytes_eq key (codes "INSTRUCTION_SENDER")
    then record e { instruction_sender = val }
    else e

unfoldable pub parse_lines : List Bytes → ExtensionEnv → ExtensionEnv
unfolding switch_key entry_of
parse_lines [] e = e
parse_lines (token ∷ rest) e = parse_lines rest (switch_key (entry_of token) e)

abbrev pub no_env : ExtensionEnv
no_env = record { extension_id = []; instruction_sender = [] }

unfoldable pub parse_content : Option Bytes → ExtensionEnv
unfolding parse_lines tokens split_lines
parse_content none = no_env
parse_content (some content) = parse_lines (tokens (split_lines content)) no_env

-- parseExtensionEnv
unfoldable pub parse_extension_env : Site → Bytes → ExtensionEnv
unfolding parse_content
parse_extension_env site path = parse_content (site.open_file path)

-- `v, ok := vars[key]` read as parseExtensionEnv does, where a missing key is the empty text
abbrev or_empty : Option Bytes → Bytes
or_empty none = []
or_empty (some val) = val

abbrev Agree : ExtensionEnv → Vars → Type 0
Agree e vars =
    (e.extension_id ≡ or_empty (get (codes "EXTENSION_ID") vars))
    × (e.instruction_sender ≡ or_empty (get (codes "INSTRUCTION_SENDER") vars))

switch_key-Agree :
    (entry : Option (Bytes × Bytes)) (vars : Vars) (e : ExtensionEnv)
    → Agree e vars
    → Agree (switch_key entry e) (set_entry entry vars)
unfolding set_entry switch_key get
switch_key-Agree none vars e agree = agree
switch_key-Agree (some (key, val)) vars e agree =
    elim (Bool-cases (bytes_eq key (codes "EXTENSION_ID"))) [
      | inl own ↦
          let same : key ≡ codes "EXTENSION_ID" = bytes_eq→eq key (codes "EXTENSION_ID") own in
          let apart : bytes_eq key (codes "INSTRUCTION_SENDER") ≡ false = rw same refl in
          rw (own, apart) (refl, agree.1)
      | inr other ↦ elim (Bool-cases (bytes_eq key (codes "INSTRUCTION_SENDER"))) [
        | inl own ↦ rw (other, own) (agree.0, refl)
        | inr apart ↦ rw (other, apart) agree
      ]
    ]

parse_lines-Agree :
    (rest : List Bytes) (vars : Vars) (e : ExtensionEnv)
    → Agree e vars
    → Agree (parse_lines rest e) (read_vars rest vars)
unfolding read_vars parse_lines
parse_lines-Agree [] vars e agree = agree
parse_lines-Agree (token ∷ rest) vars e agree =
    parse_lines-Agree rest (set_entry (entry_of token) vars) (switch_key (entry_of token) e)
      (switch_key-Agree (entry_of token) vars e agree)

-- A check of a variable fails unless its value, the empty text for a missing one, is valid.
check_var-fails :
    (key : Bytes) (valid : Bytes → Bool) (val : Option Bytes)
    → valid [] ≡ false
    → ((check_var key valid val).status == fail) ≡ not (valid (or_empty val))
unfolding check_var
check_var-fails key valid none empty = rw empty refl
check_var-fails key valid (some val) empty = ground arith

-- The two parsers of extension.env agree: for a file that opens, CheckExtensionEnvFormat reports a
-- failure exactly when one of the two values that parseExtensionEnv reads from it is malformed.
pub check_extension_env_format-parse_extension_env :
    (site : Site) (path content : Bytes)
    → site.open_file path ≡ some content
    → has_failures (check_extension_env_format site path) ≡ (
        not (address_regex (parse_extension_env site path).instruction_sender)
        || not (extension_id_regex (parse_extension_env site path).extension_id))
unfolding check_extension_env_format parse_extension_env format_results parse_content has_failures
    vars_of
check_extension_env_format-parse_extension_env site path content opened =
    let agree =
      parse_lines-Agree (tokens (split_lines content)) [] no_env (unfold get in (refl, refl)) in
    let sender =
      check_var-fails (codes "INSTRUCTION_SENDER") address_regex
        (get (codes "INSTRUCTION_SENDER") (vars_of content))
        (unfold address_regex hex_regex in refl) in
    let id =
      check_var-fails (codes "EXTENSION_ID") extension_id_regex
        (get (codes "EXTENSION_ID") (vars_of content))
        (unfold extension_id_regex hex_regex in refl) in
    rw (opened, sender, id, agree.0, agree.1) (ground arith)
