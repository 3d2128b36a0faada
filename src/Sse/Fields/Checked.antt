-- ===== src/Sse/Fields/Checked.antt =====
-- What the tests of `_event` establish about an event that they pass.
use libjadx.Base.{ℕ, true, false, Option, none, some, List, [], ◌∷◌, ◌≡◌, arith, ℤ}
use libjadx.Errors.{Exception, ok, or_raise}
use libjadx.Wire.Codec.{Codec, Uuid, uuid_eq}
use libjadx.Wire.Json.{equals_ℕ}
use libjadx.Wire.Job.{JobEvent}
use libjadx.Sse.Text.{Codes}
use libjadx.Sse.Fields.{
  Frame, checked_event, is_consistent, at_most_ℤ, read_event, event_of, id_or_nothing, just,
}

-- `e` may follow the number `before`: it has the number `n`, which is greater, and it is of the job.
pub record Follows (job : Uuid) (before : ℤ) (n : ℕ) (e : JobEvent) : Type 0 where
  pub greater : at_most_ℤ n before ≡ false
  pub numbered : equals_ℕ e.sequence n ≡ true
  pub same_job : uuid_eq e.job_id job ≡ true

is_consistent-Follows :
    (job : Uuid) (before : ℤ) (f : Frame) (n : ℕ) (e : JobEvent)
    → is_consistent job before f n e ≡ true
    → Follows job before n e
unfolding is_consistent
is_consistent-Follows job before f n e h = record {
  greater = ground arith;
  numbered = ground arith;
  same_job = ground arith;
}

just_inv :
    {A : Type 0} (x : Exception) (o : Option A) {a : A}
    → just (or_raise o x) ≡ ok (some a)
    → o ≡ some a
just_inv x none h = cc
just_inv x (some b) h = cc

module _ (codec : Codec) (job : Uuid) (before : ℤ) (f : Frame) where
  checked_event-Follows :
      (text : Codes) {n : ℕ} {e : JobEvent}
      → checked_event codec job before f text ≡ some (n, e)
      → Follows job before n e
  unfolding checked_event
  checked_event-Follows text {n} {e} h =
      is_consistent-Follows job before f n e (unfold checked_event in ground arith)

  id-Follows :
      (id : Option Codes) {n : ℕ} {e : JobEvent}
      → id_or_nothing id (checked_event codec job before f) ≡ some (n, e)
      → Follows job before n e
  id-Follows none h = cc
  id-Follows (some text) h = checked_event-Follows text h

  read_event-Follows :
      (ls : List Codes) {n : ℕ} {e : JobEvent}
      → read_event codec job before f ls ≡ ok (some (n, e))
      → Follows job before n e
  unfolding read_event
  read_event-Follows [] h = ground arith
  read_event-Follows (l ∷ ls) h =
      id-Follows f.event_id
        (just_inv _ (id_or_nothing f.event_id (checked_event codec job before f)) h)

  pub event_of-Follows :
      {n : ℕ} {e : JobEvent}
      → event_of codec job before f ≡ ok (some (n, e))
      → Follows job before n e
  unfolding event_of
  event_of-Follows h = read_event-Follows f.data_lines h
