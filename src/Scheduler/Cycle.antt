-- ===== src/Scheduler/Cycle.antt =====
-- crates/h3s-scheduler/src/lib.rs: `reconcile_once`, one scheduling cycle over complete lists. What
-- the clock and the API answer to each candidate is an argument, so every answer is covered.
use hedronetes_h3s.Prelude.{
  ℕ, zero, suc, String, List, [], ◌∷◌, Bool, true, false, ◌&&◌, ◌||◌, not, Option, none, some,
  if◌then◌else◌, ltb, str_eq, text_lt, ℤ, pos, ltb_ℤ, eqb_ℤ, sort, map, length, Result, ok, err,
}
use hedronetes_h3s.Json.{Value, string, ◌!◌, as_str, as_i64}
use hedronetes_h3s.Scheduler.Resources.{pending}
use hedronetes_h3s.Scheduler.Nodes.{Chrono, text_or}
use hedronetes_h3s.Scheduler.Select.{select}
use hedronetes_h3s.Scheduler.Condition.{Update, unchanged, write, panic, condition, set_nested}

-- Why a cycle ends early. A panic is an indexing of a value that is no object.
pub data Failure : Type 0 where
  api : Failure
  json : Failure
  snapshot : Failure
  panicked : Failure

-- The answer to a write: `gone` is 404 or 409, which the scheduler passes over.
pub data Reply : Type 0 where
  accepted : Reply
  gone : Reply
  failed : Failure → Reply

-- What one candidate meets: the clock, as an instant and as text, and the answers to the binding, to
-- the read of the bound Pod and to the status write.
pub record Replies (Instant : Type 0) : Type 0 where
  pub time : Instant
  pub time_text : String
  pub binding : Reply
  pub current : Result Failure (Option Value)
  pub status : Reply

-- A LIST: its items and its continue token.
pub record Listing : Type 0 where
  pub items : List Value
  pub continue_token : Option String

abbrev partial : Listing → Bool
partial l = elim l.continue_token [ none ↦ false | some t ↦ not (str_eq t "") ]

abbrev too_long : Listing → Bool
too_long l = ltb 4096 (length l.items)

-- The sort key of a candidate.
pub record Candidate : Type 0 where
  pub index : ℕ
  pub priority : ℤ
  pub created : String
  pub uid : String

abbrev int_or_zero : Option ℤ → ℤ
int_or_zero none = pos 0
int_or_zero (some z) = z

abbrev key_of : ℕ → Value → Candidate
key_of index p = record {
  index = index;
  priority = int_or_zero (as_i64 (p ! "spec" ! "priority"));
  created = text_or "" (as_str (p ! "metadata" ! "creationTimestamp"));
  uid = text_or "" (as_str (p ! "metadata" ! "uid"));
}

-- The order of `(Reverse(priority), created, uid)`.
abbrev pub candidate_lt : Candidate → Candidate → Bool
candidate_lt a b =
    if eqb_ℤ a.priority b.priority
    then (if str_eq a.created b.created then text_lt a.uid b.uid else text_lt a.created b.created)
    else ltb_ℤ b.priority a.priority

abbrev pub pending_from : ℕ → List Value → List Candidate
pending_from index [] = []
pending_from index (p ∷ ps) =
    let rest = pending_from (suc index) ps in if pending p then key_of index p ∷ rest else rest

abbrev pub candidates : List Value → List ℕ
candidates objects = map (λ c. c.index) (sort candidate_lt (pending_from 0 objects))

abbrev pub item_at : ℕ → List Value → Option Value
item_at i [] = none
item_at zero (v ∷ vs) = some v
item_at (suc i) (v ∷ vs) = item_at i vs

abbrev pub replace_at : ℕ → Value → List Value → List Value
replace_at i new [] = []
replace_at zero new (v ∷ vs) = new ∷ vs
replace_at (suc i) new (v ∷ vs) = v ∷ replace_at i new vs

-- The cycle's own view of the Pods, and the bindings that the API has accepted.
pub record Progress : Type 0 where
  pub objects : List Value
  pub bound : ℕ
  -- the Pod's position and the node of each binding that the API has accepted, the last one first
  pub sent : List (ℕ × String)

pub record Outcome : Type 0 where
  pub progress : Progress
  pub failure : Option Failure

abbrev pub going : Progress → Outcome
going s = record { progress = s; failure = none }

abbrev pub stopped : Progress → Failure → Outcome
stopped s f = record { progress = s; failure = some f }

abbrev pub after_write : Progress → Reply → Outcome
after_write s accepted = going s
after_write s gone = going s
after_write s (failed f) = stopped s f

abbrev pub after_condition : Progress → Reply → Update → Outcome
after_condition s reply unchanged = going s
after_condition s reply (write v) = after_write s reply
after_condition s reply panic = stopped s panicked

abbrev pub same_text : Option String → Option String → Bool
same_text none none = true
same_text (some a) (some b) = str_eq a b
same_text _ _ = false

abbrev pub identified : Value → Option String → Option String → Bool
identified pod (some namespace) (some name) = true
identified pod _ _ = false

abbrev pub next_of : Option Failure → Progress → Outcome → Outcome
next_of none s rest = rest
next_of (some f) s rest = stopped s f

module _ {Instant : Type 0} where
  -- The status of the bound Pod, if it is still the same one.
  abbrev pub mark_bound :
      Progress → Replies Instant → Value → Result Failure (Option Value) → Outcome
  mark_bound s r pod (err f) = stopped s f
  mark_bound s r pod (ok none) = going s
  mark_bound s r pod (ok (some current)) =
      if same_text (as_str (current ! "metadata" ! "uid")) (as_str (pod ! "metadata" ! "uid"))
      then after_condition s r.status (condition current true "Scheduled" r.time_text)
      else going s

module _ (chrono : Chrono) (nodes leases : List Value) (replies : ℕ → Replies chrono.Instant) where
  abbrev pub record_bind :
      Progress → ℕ → Replies chrono.Instant → Value → String → Option Value → Outcome
  record_bind s index r pod node none =
      stopped (record s { sent = (index, node) ∷ s.sent }) panicked
  record_bind s index r pod node (some new) =
      mark_bound
        (record {
          objects = replace_at index new s.objects;
          bound = suc s.bound;
          sent = (index, node) ∷ s.sent;
        })
        r pod r.current

  abbrev pub bind : Progress → ℕ → Replies chrono.Instant → Value → String → Reply → Outcome
  bind s index r pod node accepted =
      record_bind s index r pod node (set_nested "spec" "nodeName" (string node) pod)
  bind s index r pod node gone = going s
  bind s index r pod node (failed f) = stopped s f

  abbrev pub act : Progress → ℕ → Replies chrono.Instant → Value → Result String String → Outcome
  act s index r pod (ok node) = bind s index r pod node r.binding
  act s index r pod (err reason) =
      after_condition s r.status (condition pod false reason r.time_text)

  abbrev pub attempt : Progress → ℕ → Option Value → Outcome
  attempt s index none = stopped s panicked
  attempt s index (some pod) =
      if identified pod (as_str (pod ! "metadata" ! "namespace"))
        (as_str (pod ! "metadata" ! "name"))
      then act s index (replies index) pod
          (select chrono pod nodes s.objects leases (replies index).time)
      else stopped s snapshot

  -- One candidate.
  unfoldable pub schedule : Progress → ℕ → Outcome
  schedule s index = attempt s index (item_at index s.objects)

  -- The loop over the candidates: it ends at the first failure.
  abbrev pub schedule_all : Progress → List ℕ → Outcome
  schedule_all s [] = going s
  schedule_all s (i ∷ is) =
      let step = schedule s i in next_of step.failure step.progress (schedule_all step.progress is)

abbrev pub complete : Listing → Listing → Listing → Bool
complete nodes leases pods =
    not (partial nodes || partial leases || partial pods)
    && not (too_long nodes || too_long leases || too_long pods)

abbrev pub start : List Value → Progress
start objects = record { objects = objects; bound = 0; sent = [] }

-- `reconcile_once`, from the three lists on.
unfoldable pub reconcile_once :
    (chrono : Chrono) → Listing → Listing → Listing → (ℕ → Replies chrono.Instant) → Outcome
reconcile_once chrono nodes leases pods replies =
    if complete nodes leases pods
    then schedule_all chrono nodes.items leases.items replies (start pods.items)
        (candidates pods.items)
    else stopped (start pods.items) snapshot
