-- ===== src/Tools/Polling.antt =====
-- Waiting for an action's result: pollActionResult of
-- packages/fcc-extension/tools/pkg/fccutils/tee_calls.go.
use averlock.Prelude.{
  ℕ, ◌≡◌, ◌≢◌, ◌≤◌, ◌<◌, ◌⊎◌, ◌∙◌, refl, Bool, true, false, ◌||◌, ◌&&◌, Option, none, some, List,
  [], ◌∷◌, ◌++◌, Bytes, leb, ◌==◌, if◌then◌else◌, arith, Result, ok, err, or_err,
}

-- what one request gives: an error of the client, or a status with the body, if it decodes
pub data Answer : Type 0 where
  request_error : Answer
  response : ℕ → Option Bytes → Answer

pub data PollError : Type 0 where
  decoding : PollError
  fatal_status : ℕ → PollError
  last_request_failed : PollError
  last_status_was : ℕ → PollError

-- lastErr and lastStatus; an error is not cleared by a later response
pub record Last : Type 0 where
  pub failed : Bool
  pub status : ℕ

abbrev is_pending_status : ℕ → Bool
is_pending_status s = s == 404 || (leb 500 s && leb s 599)

-- the answer after which the loop stops, if it does
unfoldable pub verdict : Answer → Option (Result PollError Bytes)
verdict request_error = none
verdict (response s body) =
    if s == 200
    then some (or_err decoding body)
    else if is_pending_status s
    then none
    else some (err (fatal_status s))

unfoldable pub remember : Answer → Last → Last
remember request_error last = record last { failed = true }
remember (response s body) last = record last { status = s }

unfoldable pub timed_out : Last → PollError
timed_out last = if last.failed then last_request_failed else last_status_was last.status

-- pollActionResult on the answers that come before the deadline
unfoldable pub poll : Last → List Answer → Result PollError Bytes
poll last [] = err (timed_out last)
poll last (answer ∷ answers) =
    let rest = poll (remember answer last) answers in
    elim (verdict answer) [ some outcome ↦ outcome | none ↦ rest ]

-- `var lastStatus int` and `var lastErr error`
abbrev pub start : Last
start = record { failed = false; status = 0 }

-- An answer that leaves the result open.
pub data IsPending : Answer → Type 0 where
  failed_request : IsPending request_error
  not_found : (body : Option Bytes) → IsPending (response 404 body)
  server_error : (s : ℕ) (body : Option Bytes) → 500 ≤ s → s ≤ 599 → IsPending (response s body)

pub data ArePending : List Answer → Type 0 where
  nothing : ArePending []
  further :
      (a : Answer) (more : List Answer) → IsPending a → ArePending more → ArePending (a ∷ more)

-- An answer that settles the result, and the result.
pub data Settles : Answer → Result PollError Bytes → Type 0 where
  result_found : (body : Bytes) → Settles (response 200 (some body)) (ok body)
  undecodable : Settles (response 200 none) (err decoding)
  fatal :
      (s : ℕ) (body : Option Bytes)
      → s ≢ 200
      → s ≢ 404
      → (s < 500) ⊎ (599 < s)
      → Settles (response s body) (err (fatal_status s))

abbrev pub has_failed_request : List Answer → Bool
has_failed_request [] = false
has_failed_request (request_error ∷ more) = true
has_failed_request (response s body ∷ more) = has_failed_request more

-- the statuses of the responses, in order
abbrev pub statuses : List Answer → List ℕ
statuses [] = []
statuses (request_error ∷ more) = statuses more
statuses (response s body ∷ more) = s ∷ statuses more

abbrev pub last_or : ℕ → List ℕ → ℕ
last_or n [] = n
last_or n (s ∷ ss) = last_or s ss

IsPending-verdict : (a : Answer) → IsPending a → verdict a ≡ none
unfolding verdict
IsPending-verdict a failed_request = refl
IsPending-verdict a (not_found body) = refl
IsPending-verdict a (server_error s body low high) = ground (arith, low, high)

Settles-verdict :
    (a : Answer) (outcome : Result PollError Bytes) → Settles a outcome → verdict a ≡ some outcome
unfolding verdict
Settles-verdict a outcome (result_found body) = refl
Settles-verdict a outcome undecodable = refl
Settles-verdict a outcome (fatal s body not_ok found out) = ground (arith, not_ok, found, out)

poll_pending :
    (last : Last) (a : Answer) (more : List Answer)
    → IsPending a
    → poll last (a ∷ more) ≡ poll (remember a last) more
unfolding poll
poll_pending last a more pending = ground (arith, IsPending-verdict a pending)

poll-settled :
    (pending : List Answer) (last : Last) (answer : Answer) (rest : List Answer)
    (outcome : Result PollError Bytes)
    → ArePending pending
    → Settles answer outcome
    → poll last (pending ++ answer ∷ rest) ≡ outcome
poll-settled [] last answer rest outcome nothing settles =
    unfold poll in ground (arith, Settles-verdict answer outcome settles)
poll-settled (a ∷ more) last answer rest outcome (further _ _ here later) settles =
    poll_pending last a (more ++ answer ∷ rest) here
    ∙ poll-settled more (remember a last) answer rest outcome later settles

poll-times_out :
    (pending : List Answer) (last : Last)
    → ArePending pending
    → poll last pending
      ≡ err (
          if last.failed || has_failed_request pending
          then last_request_failed
          else last_status_was (last_or last.status (statuses pending)))
poll-times_out [] last nothing = unfold poll timed_out in ground arith
poll-times_out (request_error ∷ more) last (further _ _ here later) =
    poll_pending last request_error more here
    ∙ poll-times_out more (remember request_error last) later
    ∙ unfold remember in ground arith
poll-times_out (response s body ∷ more) last (further _ _ here later) =
    poll_pending last (response s body) more here
    ∙ poll-times_out more (remember (response s body) last) later
    ∙ unfold remember in refl

-- Behind answers that leave the result open (a failed request, the status 404, or 500 to 599), the
-- first other one settles it, whatever would come later: 200 with the decoded body, or with a
-- decoding error, and any other status as a fatal one. If there is none before the deadline, the wait
-- ends with a timeout, which tells of a failed request if there was one, and else the status of the
-- last response, or 0 if there was none.
pub poll-pending :
    (pending : List Answer) (answer : Answer) (rest : List Answer)
    (outcome : Result PollError Bytes)
    → ArePending pending
    → Settles answer outcome
    → (poll start (pending ++ answer ∷ rest) ≡ outcome)
      × (poll start pending
          ≡ err (
              if has_failed_request pending
              then last_request_failed
              else last_status_was (last_or 0 (statuses pending))))
poll-pending pending answer rest outcome are settles =
    (poll-settled pending start answer rest outcome are settles, poll-times_out pending start are)
