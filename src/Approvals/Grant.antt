-- ===== src/Approvals/Grant.antt =====
-- internal/approvals/service.go: each call against the count of the approvals, and the runs of calls.
use meeseek_collective.Common.{
  ◌≡◌, ◌≢◌, sym, ap, subst, ◌∙◌, inl, inr, true, Option, none, some, List, [], ◌∷◌, String, arith,
  length,
}
use meeseek_collective.Common.Sets.{has_string, IsSorted, IsSorted-Distinct}
use meeseek_collective.Common.Rows.{
  count, find, update, insert, KeepsKey, find-update_cases, find-insert_cases, find_missing,
  find_uninserted, insert_fresh,
}
use meeseek_collective.Domain.{ApprovalState}
use meeseek_collective.Approvals.Requests.{Request, Decision, Registry, request_key, is_approved}
use meeseek_collective.Approvals.Decisions.{set_state, find_decision, approves, Call, after, run}
use meeseek_collective.Approvals.Tally.{approved_by, tally, tally_full}
use meeseek_collective.Approvals.Steps.{Outcome, Step, stays, opens, votes, uses, after-Step}
use meeseek_collective.Approvals.Unanimity.{
  IsGranted, IsCounted, IsForeign, IsSound, Voted, other, own, Outcome-Voted, voted_missing,
  vote_counted, foreign-IsCounted, kept-IsForeign,
}

-- A new request has no decisions yet.
opened-IsCounted :
    (r : Request) (ds : List Decision)
    → r.state ≡ ApprovalState.pending
    → IsSorted r.required
    → IsForeign r.id ds
    → IsCounted r.id r ds
opened-IsCounted r ds pending sorted v = record {
  sorted = sorted;
  counted = v.uncounted ∙ sym (v.untallied r.required);
  granted = λ g. absurd (ground (arith, pending, g));
}

opens-IsSound :
    (s : Registry) (r : Request) (rows : List Request)
    → r.state ≡ ApprovalState.pending
    → IsSorted r.required
    → insert r s.requests ≡ some rows
    → IsSound s
    → IsSound (record s { requests = rows })
opens-IsSound s r rows pending sorted ins v = record {
  rows = λ i x e. elim (find-insert_cases r s.requests i ins e) [
    | inl (k, w) ↦
        subst (λ j. IsCounted j x s.decisions) k
          (subst (λ y. IsCounted r.id y s.decisions) (sym w)
            (opened-IsCounted r s.decisions pending sorted
              (v.strangers r.id (insert_fresh r s.requests ins))))
    | inr was ↦ v.rows i x was
  ];
  strangers = λ i e. v.strangers i (find_uninserted r s.requests i ins e);
}

-- The request that a vote is about.
own-IsCounted :
    (id : String) (r x : Request) (d : Decision) (ds : List Decision)
    → d.approval ≡ id
    → find_decision id d.approver ds ≡ none
    → has_string r.required d.approver ≡ true
    → x.required ≡ r.required
    → (IsGranted x.state → count (approves id) (d ∷ ds) ≡ length r.required)
    → IsCounted id r ds
    → IsCounted id x (d ∷ ds)
own-IsCounted id r x d ds mine new member same full v = record {
  sorted = subst IsSorted (sym same) v.sorted;
  counted =
      vote_counted id d ds r.required mine new (IsSorted-Distinct r.required v.sorted) member
        v.counted
      ∙ ap (tally id (d ∷ ds)) (sym same);
  granted = λ g. full g ∙ ap length (sym same);
}

votes-IsSound :
    (s t : Registry) (id : String) (r : Request) (d : Decision)
    → find id s.requests ≡ some r
    → r.state ≡ ApprovalState.pending
    → d.approval ≡ id
    → has_string r.required d.approver ≡ true
    → find_decision id d.approver s.decisions ≡ none
    → t.decisions ≡ d ∷ s.decisions
    → Outcome id r d s.decisions s.requests t.requests
    → IsSound s
    → IsSound t
votes-IsSound s t id r d fr pending mine member new e outcome v = record {
  rows = λ j x fx. subst (IsCounted j x) (sym e) (
      counted j x
        (Outcome-Voted id r d s.decisions s.requests t.requests outcome fr pending j x fx));
  strangers = λ j h.
      subst (IsForeign j) (sym e)
        (foreign j (voted_missing id r d s.decisions s.requests t.requests outcome j h));
}
  where
    not_voted : (j : String) → j ≢ id → d.approval ≢ j
    not_voted j n k = n (sym k ∙ mine)

    counted :
        (j : String) (x : Request)
        → Voted id r d s.decisions s.requests j x
        → IsCounted j x (d ∷ s.decisions)
    counted j x (other n was) = foreign-IsCounted j x d s.decisions (not_voted j n) (v.rows j x was)
    counted j x (own k same full) =
        subst (λ i. IsCounted i x (d ∷ s.decisions)) (sym k)
          (own-IsCounted id r x d s.decisions mine new member same full (v.rows id r fr))

    foreign : (j : String) → find j s.requests ≡ none → IsForeign j (d ∷ s.decisions)
    foreign j h =
        kept-IsForeign j d s.decisions
          (not_voted j (λ k. clash (sym fr ∙ subst (λ i. find i s.requests ≡ none) k h)))
          (v.strangers j h)
      where
        clash : ◌≡◌ {A = Option Request} (some r) none → ⊥
        clash h' = cc

uses-IsSound :
    (s : Registry) (id : String) (r : Request)
    → find id s.requests ≡ some r
    → r.state ≡ ApprovalState.approved
    → IsSound s
    → IsSound (record s {
      requests = update id (set_state ApprovalState.consumed is_approved) s.requests;
    })
uses-IsSound s id r fr approved v = record {
  rows = λ j x e. elim (find-update_cases id j f s.requests keeps e) [
    | inl (n, was) ↦ v.rows j x was
    | inr (y, k, was, w) ↦
        let old = v.rows j y was in
        subst (λ z. IsCounted j z s.decisions) (sym w)
          (record {
            sorted = subst IsSorted (sym (required y)) old.sorted;
            counted = old.counted ∙ ap (tally j s.decisions) (sym (required y));
            granted = λ g.
                old.granted (inl (ground (arith, k, was, fr, approved)))
                ∙ ap length (sym (required y));
          })
  ];
  strangers = λ j h. v.strangers j (find_missing id j f s.requests keeps h);
}
  where
    f : Request → Request
    f = set_state ApprovalState.consumed is_approved

    keeps : KeepsKey f
    keeps y = ground arith

    required : (y : Request) → (f y).required ≡ y.required
    required y = ground arith

pub Step-IsSound : (s t : Registry) → Step s t → IsSound s → IsSound t
Step-IsSound s t (stays e) v = subst IsSound (sym e) v
Step-IsSound s t (opens r rows pending sorted ins e) v =
    subst IsSound (sym e) (opens-IsSound s r rows pending sorted ins v)
Step-IsSound s t (votes id r d fr pending mine member new e outcome) v =
    votes-IsSound s t id r d fr pending mine member new e outcome v
Step-IsSound s t (uses id r fr approved e) v =
    subst IsSound (sym e) (uses-IsSound s id r fr approved v)

pub after-IsSound : (s : Registry) (c : Call) → IsSound s → IsSound (after s c)
after-IsSound s c v = Step-IsSound s (after s c) (after-Step s c) v

-- Every sequence of calls keeps the tables sound.
pub run-IsSoundRegistry : (s : Registry) (cs : List Call) → IsSound s → IsSound (run s cs)
unfolding run
run-IsSoundRegistry s [] v = v
run-IsSoundRegistry s (c ∷ cs) v = run-IsSoundRegistry (after s c) cs (after-IsSound s c v)

-- After any calls on sound tables a request that is approved or consumed has the recorded approval of
-- every approver that it requires.
pub run_unanimous :
    (s : Registry) (cs : List Call) (i : String) (r : Request) (x : String)
    → IsSound s
    → find i (run s cs).requests ≡ some r
    → IsGranted r.state
    → has_string r.required x ≡ true
    → approved_by i (run s cs).decisions x ≡ true
run_unanimous s cs i r x v fr granted member =
    let w = (run-IsSoundRegistry s cs v).rows i r fr in
    tally_full i (run s cs).decisions r.required x (sym w.counted ∙ w.granted granted) member
