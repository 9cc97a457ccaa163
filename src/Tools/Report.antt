-- ===== src/Tools/Report.antt =====
-- The report on a deployment: packages/fcc-extension/tools/pkg/validate/report.go.
pub mod Tally
pub mod Grouping
pub mod Json
use averlock.Prelude.{
  ℕ, ◌+◌, Bool, true, false, ◌||◌, not, List, [], ◌∷◌, ◌++◌, Bytes, codes, bytes_eq, is_empty, ◌==◌,
  if◌then◌else◌,
}
use averlock.Uint256.{to_string}

-- Status, an int
abbrev pub Status : Type 0
Status = ℕ

abbrev pub pass : Status
pass = 0

abbrev pub warn : Status
warn = 1

abbrev pub fail : Status
fail = 2

abbrev pub skip : Status
skip = 3

-- Status.String
unfoldable pub status_string : Status → Bytes
status_string s =
    if s == pass
    then codes "PASS"
    else if s == warn
    then codes "WARN"
    else if s == fail
    then codes "FAIL"
    else if s == skip
    then codes "SKIP"
    else codes "UNKNOWN"

pub record CheckResult : Type 0 where
  pub step : Bytes
  pub id : Bytes
  pub name : Bytes
  pub status : Status
  pub message : Bytes
  pub fix : Bytes

-- Report, by its field Results
abbrev pub Report : Type 0
Report = List CheckResult

-- Report.Add
abbrev pub add : CheckResult → Report → Report
add result report = report ++ result ∷ []

-- Report.HasFailures
unfoldable pub has_failures : Report → Bool
has_failures [] = false
has_failures (res ∷ report) = res.status == fail || has_failures report

-- the four counters of Summary
pub record Counts : Type 0 where
  pub passed : ℕ
  pub warning : ℕ
  pub failed : ℕ
  pub skipped : ℕ

unfoldable pub count_one : Status → Counts → Counts
count_one s c =
    if s == pass
    then record c { passed = c.passed + 1 }
    else if s == warn
    then record c { warning = c.warning + 1 }
    else if s == fail
    then record c { failed = c.failed + 1 }
    else if s == skip
    then record c { skipped = c.skipped + 1 }
    else c

unfoldable pub count_from : Counts → Report → Counts
unfolding count_one
count_from c [] = c
count_from c (res ∷ report) = count_from (count_one res.status c) report

abbrev pub no_counts : Counts
no_counts = record { passed = 0; warning = 0; failed = 0; skipped = 0 }

-- Report.Summary
unfoldable pub summary : Report → Bytes
unfolding count_from
summary report =
    let c = count_from no_counts report in
    to_string c.passed
    ++ (codes " passed, "
        ++ (to_string c.warning
            ++ (codes " warning, "
                ++ (to_string c.failed
                    ++ (codes " failed, " ++ (to_string c.skipped ++ codes " skipped"))))))

unfoldable pub contains : Bytes → List Bytes → Bool
contains k [] = false
contains k (j ∷ seen) = bytes_eq k j || contains k seen

-- the steps in the order of their first appearance, but those that have been seen
unfoldable pub steps_from : List Bytes → Report → List Bytes
unfolding contains
steps_from seen [] = []
steps_from seen (res ∷ report) =
    let again = steps_from seen report in
    let first = steps_from (res.step ∷ seen) report in
    if contains res.step seen then again else res.step ∷ first

-- the results of a step
unfoldable pub of_step : Bytes → Report → Report
of_step step [] = []
of_step step (res ∷ report) =
    let more = of_step step report in if bytes_eq res.step step then res ∷ more else more

-- the results in the order in which Fprint writes them
unfoldable pub in_groups : List Bytes → Report → Report
unfolding of_step
in_groups [] report = []
in_groups (step ∷ steps) report = of_step step report ++ in_groups steps report

-- an ANSI escape with its parameter
escape : Bytes → Bytes
escape code = 27 ∷ (codes "[" ++ (code ++ codes "m"))

abbrev color_code : Status → Bytes
color_code s =
    if s == pass
    then codes "32"
    else if s == warn
    then codes "33"
    else if s == fail
    then codes "31"
    else if s == skip
    then codes "90"
    else codes "0"

-- statusColor
unfoldable pub status_color : Status → Bytes
unfolding escape
status_color s = escape (color_code s)

-- stepLabel, with the step itself for an unknown one
unfoldable pub step_label : Bytes → Bytes
step_label step =
    if bytes_eq step (codes "deploy")
    then codes "Contract Deployment"
    else if bytes_eq step (codes "register")
    then codes "Extension Registration"
    else if bytes_eq step (codes "services")
    then codes "Service Startup"
    else if bytes_eq step (codes "tee-version")
    then codes "TEE Version Registration"
    else if bytes_eq step (codes "tee-machine")
    then codes "TEE Machine Registration"
    else if bytes_eq step (codes "test")
    then codes "Testing"
    else step

newline : Bytes
newline = 10 ∷ []

-- a line that is left out if its text is empty
detail : Bytes → Bytes → Bytes
unfolding newline
detail prefix text = if is_empty text then [] else prefix ++ (text ++ newline)

-- the lines of one result
unfoldable pub result_lines : CheckResult → Bytes
unfolding status_string status_color escape detail newline
result_lines res =
    (codes "  "
      ++ (status_color res.status
          ++ (codes "["
              ++ (status_string res.status
                  ++ (codes "]"
                      ++ (escape (codes "0")
                          ++ (codes " " ++ (res.id ++ (codes "  " ++ (res.name ++ newline))))))))))
    ++ (if res.status == fail || res.status == warn
        then detail (codes "         ") res.message ++ detail (codes "         Fix: ") res.fix
        else [])

all_lines : Report → Bytes
unfolding result_lines
all_lines [] = []
all_lines (res ∷ report) = result_lines res ++ all_lines report

groups : List Bytes → Report → Bytes
unfolding step_label all_lines of_step newline
groups [] report = []
groups (step ∷ steps) report =
    (step_label step ++ (codes ":" ++ newline))
    ++ (all_lines (of_step step report) ++ (newline ++ groups steps report))

-- Report.Fprint
unfoldable pub fprint : Report → Bytes
unfolding groups steps_from summary escape newline
fprint report =
    newline
    ++ (escape (codes "36")
        ++ (codes "=== Deployment Verification Report ==="
            ++ (escape (codes "0")
                ++ (newline
                    ++ (newline
                        ++ (groups (steps_from [] report) report
                            ++ (summary report ++ newline)))))))
