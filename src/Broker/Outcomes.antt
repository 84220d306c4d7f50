-- ===== src/Broker/Outcomes.antt =====
-- What the requests of broker.go return after their tries.
use kafka.Base.{
  ℕ, zero, suc, ◌≡◌, refl, List, [], ◌∷◌, Option, none, some, Bool, true, false, if◌then◌else◌,
  arith,
}
use kafka.Wire.BigEndian.{is_negative64}
use kafka.Wire.Errors.{Error}
use kafka.Messages.OffsetResp.{OffsetResp, OffsetRespPartition}
use kafka.Messages.FetchResp.{FetchResp, FetchRespPartition}
use kafka.Messages.OffsetCommitResp.{OffsetCommitResp, OffsetCommitRespPartition}
use kafka.Connection.Outcome.{
  Failure, passed_on, negative_offset, Outcome, returned, refused, NetworkErrors,
}
use kafka.Broker.Attempts.{
  Action, Try, answer, go_on, Taking, leader_taking, response_of, retry, one_try, is_failover,
}
use kafka.Broker.Leader.{tries_of}
use kafka.Broker.Requests.{
  offset, offset_body, find_offset, or_incomplete, fetch, fetch_body, find_fetched, no_messages,
  with_error,
}
use kafka.Broker.Coordinator.{
  CoordinatorTry, coordinator_connection, coordinator_taking, commit, commit_body, commit_loop,
  commit_found, find_committed,
}

-- Every try gets a response in which the partition has an error that refreshes the metadata.
pub record FailsOver {R P : Type 0} (find : R → Option P) (err : P → Option Error) (t : Try R)
    : Type 0 where
  pub conn : ℕ
  pub resp : R
  pub part : P
  pub connected : t.connection ≡ returned conn
  pub answered : t.response ≡ returned resp
  pub there : find resp ≡ some part
  pub moved : is_failover (err part) ≡ true

abbrev pub FetchFailsOver : List ℕ → ℕ → Try FetchResp → Type 0
FetchFailsOver topic partition =
    FailsOver (find_fetched topic partition) (λ (p : FetchRespPartition). p.err)

abbrev pub OffsetFailsOver : List ℕ → ℕ → Try OffsetResp → Type 0
OffsetFailsOver topic partition =
    FailsOver (find_offset topic partition) (λ (p : OffsetRespPartition). p.err)

fetch_loop_lost :
    (topic : List ℕ) (partition : ℕ) (tries : ℕ → Try FetchResp) (left k : ℕ) (held : List ℕ)
    → ((j : ℕ) → FetchFailsOver topic partition (tries j))
    → (retry
        (λ f. go_on (some f))
        (fetch_body topic partition)
        no_messages
        (leader_taking tries)
        (response_of tries)
        left
        k
        none
        held).0
      ≡ returned []
unfolding retry
fetch_loop_lost topic partition tries zero k held over = refl
fetch_loop_lost topic partition tries (suc left) k held over =
    let o = over k in
    rw (o.connected, o.answered, o.there, o.moved)
      (fetch_loop_lost topic partition tries left (suc k) (o.conn ∷ held) over)

-- A consumer's fetch whose every try is answered with one of the errors that refresh the metadata returns
-- no messages and no error, whatever the limit on tries: the error is lost, and the caller takes the
-- partition for an empty one.
pub fetch_loses_error :
    (limit : ℕ) (topic : List ℕ) (partition : ℕ) (tries : ℕ → Try FetchResp)
    → ((j : ℕ) → FetchFailsOver topic partition (tries j))
    → (fetch limit topic partition tries).0 ≡ returned []
unfolding fetch
fetch_loses_error limit topic partition tries over =
    fetch_loop_lost topic partition tries (tries_of limit) 0 [] over

offset_loop_failed :
    (net : NetworkErrors) (topic : List ℕ) (partition : ℕ) (tries : ℕ → Try OffsetResp) (e : Error)
    (left k : ℕ) (held : List ℕ)
    → (over : (j : ℕ) → OffsetFailsOver topic partition (tries j))
    → ((j : ℕ) → (over j).part.err ≡ some e)
    → (retry
        (λ f. answer (refused f))
        (offset_body net topic partition)
        or_incomplete
        (leader_taking tries)
        (response_of tries)
        left
        k
        (some (passed_on e))
        held).0
      ≡ refused (passed_on e)
unfolding retry
offset_loop_failed net topic partition tries e zero k held over same = refl
offset_loop_failed net topic partition tries e (suc left) k held over same =
    let o = over k in
    rw (o.connected, o.answered, o.there, o.moved, same k)
      (offset_loop_failed net topic partition tries e left (suc k) (o.conn ∷ held) over same)

-- offset, unlike fetch, returns the partition's error where every try is answered with it and it is one
-- of those that refresh the metadata, if the limit allows a try.
pub offset_keeps_error :
    (net : NetworkErrors) (limit left : ℕ) (topic : List ℕ) (partition : ℕ)
    (tries : ℕ → Try OffsetResp) (e : Error)
    → tries_of limit ≡ suc left
    → (over : (j : ℕ) → OffsetFailsOver topic partition (tries j))
    → ((j : ℕ) → (over j).part.err ≡ some e)
    → (offset net limit topic partition tries).0 ≡ refused (passed_on e)
unfolding offset retry
offset_keeps_error net limit left topic partition tries e some_try over same =
    let o = over 0 in
    rw (some_try, o.connected, o.answered, o.there, o.moved, same 0)
      (offset_loop_failed net topic partition tries e left 1 (o.conn ∷ []) over same)

-- A try whose response has the partition, without an error.
pub record Acknowledged (topic : List ℕ) (partition : ℕ) (t : CoordinatorTry OffsetCommitResp)
    : Type 0 where
  pub conn : ℕ
  pub resp : OffsetCommitResp
  pub part : OffsetCommitRespPartition
  pub connected : (coordinator_connection t.idle t.brokers t.found t.connections).0 ≡ returned conn
  pub answered : t.response ≡ returned resp
  pub there : find_committed topic partition resp ≡ some part
  pub fine : part.err ≡ none

with_error-returned : (err : Option Error) → with_error tt err ≡ returned tt → err ≡ none
with_error-returned none h = refl
with_error-returned (some e) h = cc

commit_found-returned :
    (o : Option OffsetCommitRespPartition)
    → commit_found o ≡ returned tt
    → (p : OffsetCommitRespPartition) × (o ≡ some p) × (p.err ≡ none)
commit_found-returned none h = absurd cc
commit_found-returned (some p) h = (p, refl, with_error-returned p.err h)

module _ (net : NetworkErrors) (topic : List ℕ) (partition : ℕ) where
  -- Either the try was acknowledged, or the rest of the loop returned nil after an error.
  acknowledged_or_later :
      {P : Type 0} (err : Option Failure) (taken : Taking) (response : Outcome OffsetCommitResp)
      (held : List ℕ) (rest : Option Failure → List ℕ → Outcome (Unit {0}) × List Action)
      → ((conn : ℕ) (resp : OffsetCommitResp) (p : OffsetCommitRespPartition)
          → taken.0 ≡ returned conn
          → response ≡ returned resp
          → find_committed topic partition resp ≡ some p
          → p.err ≡ none
          → P)
      → ((f : Failure) (later : List ℕ) → (rest (some f) later).0 ≡ returned tt → P)
      → (one_try
          (λ f. go_on (some f))
          (λ conn. commit_body net topic partition err conn response)
          held
          taken
          rest).0
        ≡ returned tt
      → P
  acknowledged_or_later err (refused f, before) response held rest now later h = later f held h
  acknowledged_or_later err (returned conn, before) (refused f) held rest now later h =
      later f (conn ∷ held) h
  acknowledged_or_later err (returned conn, before) (returned resp) held rest now later h =
      let (p, there, fine) = commit_found-returned (find_committed topic partition resp) h in
      now conn resp p refl refl there fine

  commit_try_nil :
      (tries : ℕ → CoordinatorTry OffsetCommitResp) (k conn : ℕ) (resp : OffsetCommitResp)
      (p : OffsetCommitRespPartition)
      → (coordinator_taking tries k).0 ≡ returned conn
      → (tries k).response ≡ returned resp
      → find_committed topic partition resp ≡ some p
      → p.err ≡ none
      → (j : ℕ) × Acknowledged topic partition (tries j)
  unfolding coordinator_taking
  commit_try_nil tries k conn resp p connected answered there fine = (
    k,
    record {
      conn = conn;
      resp = resp;
      part = p;
      connected = connected;
      answered = answered;
      there = there;
      fine = fine;
    },
  )

  commit_loop_nil :
      (tries : ℕ → CoordinatorTry OffsetCommitResp) (left k : ℕ) (f : Failure) (held : List ℕ)
      → (commit_loop net topic partition tries left k (some f) held).0 ≡ returned tt
      → (j : ℕ) × Acknowledged topic partition (tries j)
  unfolding retry
  commit_loop_nil tries zero k f held h = absurd cc
  commit_loop_nil tries (suc left) k f held h =
      acknowledged_or_later (some f) (coordinator_taking tries k) (tries k).response held
        (λ e later. commit_loop net topic partition tries left (suc k) e later)
        (commit_try_nil tries k) (commit_loop_nil tries left (suc k)) h

  commit_nil_from :
      (negative : Bool) (n left : ℕ) (f : Failure) (tries : ℕ → CoordinatorTry OffsetCommitResp)
      → n ≡ suc left
      → (if negative then (refused f, []) else commit_loop net topic partition tries n 0 none []).0
        ≡ returned tt
      → (j : ℕ) × Acknowledged topic partition (tries j)
  unfolding retry
  commit_nil_from true n left f tries e h = absurd cc
  commit_nil_from false zero left f tries e h = absurd (omega arith)
  commit_nil_from false (suc n) left f tries e h =
      acknowledged_or_later none (coordinator_taking tries 0) (tries 0).response []
        (λ e' later. commit_loop net topic partition tries n 1 e' later) (commit_try_nil tries 0)
        (commit_loop_nil tries n 1) h

  -- Where commit returns nil and its limit allows a try, some try got a connection and a response that
  -- has the partition without an error: the commit was acknowledged.
  pub commit-Acknowledged :
      (limit left committed : ℕ) (tries : ℕ → CoordinatorTry OffsetCommitResp)
      → tries_of limit ≡ suc left
      → (commit net topic partition limit committed tries).0 ≡ returned tt
      → (j : ℕ) × Acknowledged topic partition (tries j)
  unfolding commit retry
  commit-Acknowledged limit left committed tries some_try h =
      commit_nil_from (is_negative64 committed) (tries_of limit) left (negative_offset committed)
        tries some_try h
