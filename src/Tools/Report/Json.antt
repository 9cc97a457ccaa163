-- ===== src/Tools/Report/Json.antt =====
-- The report as JSON: FprintJSON in packages/fcc-extension/tools/pkg/validate/report.go.
use averlock.Prelude.{
  ℕ, ◌+◌, ◌/◌, ◌%◌, ◌||◌, List, [], ◌∷◌, ◌++◌, Bytes, codes, is_empty, ltb, ◌==◌, if◌then◌else◌,
}
use averlock.Text.{trim_space}
use averlock.Tools.Report.{CheckResult, Report, status_string, summary}

-- jsonResult and jsonReport
pub record JsonResult : Type 0 where
  pub step : Bytes
  pub id : Bytes
  pub name : Bytes
  pub status : Bytes
  pub message : Bytes
  pub fix : Bytes

pub record JsonReport : Type 0 where
  pub results : List JsonResult
  pub summary : Bytes

unfoldable pub json_result : CheckResult → JsonResult
json_result res = record {
  step = res.step;
  id = res.id;
  name = res.name;
  status = status_string res.status;
  message = trim_space res.message;
  fix = trim_space res.fix;
}

unfoldable pub json_results : Report → List JsonResult
json_results [] = []
json_results (res ∷ report) = json_result res ∷ json_results report

hex_digit : ℕ → ℕ
hex_digit n = if ltb n 10 then b'0' + n else 87 + n

-- a byte in a string of encoding/json, which escapes `<`, `>` and `&` too; what is not ASCII stands
-- for itself
string_byte : ℕ → Bytes
unfolding hex_digit
string_byte c =
    if c == b'"' || c == b'\\'
    then b'\\' ∷ c ∷ []
    else if c == 8
    then codes "\\b"
    else if c == 12
    then codes "\\f"
    else if c == 10
    then codes "\\n"
    else if c == 13
    then codes "\\r"
    else if c == 9
    then codes "\\t"
    else if ltb c 32 || (c == b'<' || (c == b'>' || c == b'&'))
    then codes "\\u00" ++ hex_digit (c / 16) ∷ hex_digit (c % 16) ∷ []
    else c ∷ []

string_bytes : Bytes → Bytes
unfolding string_byte
string_bytes [] = []
string_bytes (c ∷ s) = string_byte c ++ string_bytes s

string : Bytes → Bytes
unfolding string_bytes
string s = b'"' ∷ string_bytes s ++ b'"' ∷ []

-- a field of an object and what follows it, on a line of its own
field : Bytes → Bytes → Bytes
unfolding string
field name val = 10 ∷ codes "      " ++ (string name ++ (codes ": " ++ string val))

-- a field with `omitempty`
optional : Bytes → Bytes → Bytes
unfolding field
optional name val = if is_empty val then [] else codes "," ++ field name val

object : JsonResult → Bytes
unfolding field optional
object res =
    codes "{"
    ++ (field (codes "step") res.step
        ++ (codes ","
            ++ (field (codes "id") res.id
                ++ (codes ","
                    ++ (field (codes "name") res.name
                        ++ (codes ","
                            ++ (field (codes "status") res.status
                                ++ (optional (codes "message") res.message
                                    ++ (optional (codes "fix") res.fix
                                        ++ 10 ∷ codes "    }")))))))))

objects : List JsonResult → Bytes
unfolding object
objects [] = []
objects (res ∷ []) = 10 ∷ codes "    " ++ object res
objects (res ∷ next ∷ rest) =
    (10 ∷ codes "    " ++ object res) ++ (codes "," ++ objects (next ∷ rest))

array : List JsonResult → Bytes
unfolding objects
array [] = codes "[]"
array (res ∷ rest) = codes "[" ++ (objects (res ∷ rest) ++ 10 ∷ codes "  ]")

-- `enc.Encode(jr)`, with an indent of two spaces
unfoldable pub encode : JsonReport → Bytes
unfolding array string
encode jr =
    codes "{"
    ++ (10 ∷ codes "  \"results\": "
        ++ (array jr.results
            ++ (codes ","
                ++ (10 ∷ codes "  \"summary\": "
                    ++ (string jr.summary ++ 10 ∷ codes "}" ++ 10 ∷ [])))))

-- FprintJSON
unfoldable pub fprint_json : Report → Bytes
unfolding json_results encode
fprint_json report = encode (record { results = json_results report; summary = summary report })
