-- ===== src/Demo/Evidence/Laws.antt =====
-- What the evidence of a verification says once it has passed the tests of demo/models.py.
use mathlib.Core.Path.{subst}
use text.Mathlib.Text.{◌==◌ as str_eq}
use text.Mathlib.TextEquality.{eq_iff}
use splitbind.Base.{
  ℕ, String, ◌≡◌, refl, ap, ◌≤◌, Bool, true, false, Option, none, some, arith, ok, List, [], ◌∷◌,
  ◌++◌, map, >>-eq-ok, guard-eq-ok, All, &&-inv,
}
use splitbind.Model.Evidence.{
  Json, Element, EvidenceKey, MetricKey, label, plain, nested, null, object, boolean, integer,
  negative, float, string, array,
}
use splitbind.Demo.Evidence.{
  check_evidence_shape, check_limitations, begins_with, all_distinct, all_allowed, repeats, member,
  verification_limitations, allowed_limitations, item, metric, is_page_count, same_count,
  is_vote_count, is_confidence,
}

-- A text is not among the texts.
abbrev pub Absent : String → List String → Type 0
Absent t xs = All (λ x. t ≡ x → ⊥) xs

abbrev pub Distinct : List String → Type 0
Distinct [] = Unit
Distinct (x ∷ xs) = Absent x xs × Distinct xs

no_both : {b : Bool} → b ≡ true → b ≡ false → ⊥
no_both h g = cc

repeats-Absent : (t : String) (xs : List String) → repeats t (map label xs) ≡ false → Absent t xs
unfolding repeats
repeats-Absent t [] e = tt
repeats-Absent t (x ∷ xs) e =
    let differs : str_eq t x ≡ false = ground arith in
    (λ same. no_both ((eq_iff t x).1 same) differs, repeats-Absent t xs (ground arith))

all_distinct-Distinct : (xs : List String) → all_distinct (map label xs) ≡ true → Distinct xs
unfolding all_distinct
all_distinct-Distinct [] e = tt
all_distinct-Distinct (x ∷ xs) e =
    (repeats-Absent x xs (ground arith), all_distinct-Distinct xs (ground arith))

-- the allowed elements are texts
all_allowed-map :
    (xs : List Element)
    → all_allowed xs ≡ true
    → (ts : List String) × (xs ≡ map label ts) × All (λ t. member t allowed_limitations ≡ true) ts
unfolding all_allowed
all_allowed-map [] e = ([], refl, tt)
all_allowed-map (label x ∷ xs) e =
    let tests = &&-inv (member x allowed_limitations) (all_allowed xs) e in
    let (ts, same, all) = all_allowed-map xs tests.1 in
    (x ∷ ts, ap (λ ys. label x ∷ ys) same, (tests.0, all))
all_allowed-map (plain ∷ xs) e = cc
all_allowed-map (nested ∷ xs) e = cc

begins_with-append :
    (ts xs : List String)
    → begins_with ts (map label xs) ≡ true
    → (rest : List String) × (xs ≡ ts ++ rest)
unfolding begins_with
begins_with-append [] xs e = (xs, refl)
begins_with-append (t ∷ ts) [] e = cc
begins_with-append (t ∷ ts) (x ∷ xs) e =
    let (rest, same) = begins_with-append ts xs (ground arith) in
    let first : str_eq x t ≡ true = ground arith in (rest, rw ((eq_iff x t).0 first, same))

-- The limitations: those of every verification come first, each is one of the allowed texts, and none
-- is named twice.
pub record IsLimited (ts : List String) : Type 0 where
  pub rest : List String
  pub first : ts ≡ verification_limitations ++ rest
  pub allowed : All (λ t. member t allowed_limitations ≡ true) ts
  pub distinct : Distinct ts

check_limitations-IsLimited :
    (xs : List Element)
    → check_limitations (some (array xs)) ≡ ok tt
    → (ts : List String) × (xs ≡ map label ts) × IsLimited ts
unfolding check_limitations
check_limitations-IsLimited xs e =
    let allowed = >>-eq-ok _ _ e in
    let distinct = >>-eq-ok _ _ allowed.0 in
    let hashable = >>-eq-ok _ _ distinct.0 in
    let (ts, same, all) = all_allowed-map xs (guard-eq-ok _ _ allowed.1) in
    let (rest, first) = begins_with-append verification_limitations ts (
      subst (λ ys. begins_with verification_limitations ys ≡ true) same
        (guard-eq-ok _ _ hashable.0)) in
    (
      ts,
      same,
      record {
        rest = rest;
        first = first;
        allowed = all;
        distinct =
            all_distinct-Distinct ts
              (subst (λ ys. all_distinct ys ≡ true) same (guard-eq-ok _ _ distinct.1));
      },
    )

-- What the evidence and the metrics of a committed verification say: from 1 to 5 pages were analysed,
-- and the metrics count the same pages; no cleanup failed; the votes are counted; the limitations are
-- as `IsLimited` says.
pub record IsSound (evidence : List (EvidenceKey × Json)) (metrics : List (MetricKey × Json))
    : Type 0 where
  pub pages : ℕ
  pub analyzed : item EvidenceKey.analyzed_page_count evidence ≡ some (integer pages)
  pub bounded : (1 ≤ pages) × (pages ≤ 5)
  pub processed : metric MetricKey.pages_processed metrics ≡ some (integer pages)
  pub cleanup : metric MetricKey.cleanup_failures metrics ≡ some (integer 0)
  pub votes : (n : ℕ) × (item EvidenceKey.valid_vote_count evidence ≡ some (integer n))
  pub confidence : is_confidence (item EvidenceKey.fingerprint_confidence evidence) ≡ true
  pub limits : List String
  pub limited :
      (item EvidenceKey.limitations evidence ≡ some (array (map label limits))) × IsLimited limits

page_count-integer :
    (v : Option Json)
    → is_page_count v ≡ true
    → (n : ℕ) × (v ≡ some (integer n)) × (1 ≤ n) × (n ≤ 5)
page_count-integer (some (integer n)) h = (n, refl, ground arith, ground arith)
page_count-integer none h = cc
page_count-integer (some null) h = cc
page_count-integer (some object) h = cc
page_count-integer (some (boolean b)) h = cc
page_count-integer (some (negative n)) h = cc
page_count-integer (some (float b n k)) h = cc
page_count-integer (some (string t)) h = cc
page_count-integer (some (array xs)) h = cc

vote_count-integer : (v : Option Json) → is_vote_count v ≡ true → (n : ℕ) × (v ≡ some (integer n))
vote_count-integer (some (integer n)) h = (n, refl)
vote_count-integer none h = cc
vote_count-integer (some null) h = cc
vote_count-integer (some object) h = cc
vote_count-integer (some (boolean b)) h = cc
vote_count-integer (some (negative n)) h = cc
vote_count-integer (some (float b n k)) h = cc
vote_count-integer (some (string t)) h = cc
vote_count-integer (some (array xs)) h = cc

same_count-integer :
    (v : Option Json) (n : ℕ) → same_count v (some (integer n)) ≡ true → v ≡ some (integer n)
same_count-integer (some (integer m)) n h = ground arith
same_count-integer none n h = cc
same_count-integer (some null) n h = cc
same_count-integer (some object) n h = cc
same_count-integer (some (boolean b)) n h = cc
same_count-integer (some (negative k)) n h = cc
same_count-integer (some (float b k l)) n h = cc
same_count-integer (some (string t)) n h = cc
same_count-integer (some (array xs)) n h = cc

check_limitations-array :
    (v : Option Json)
    → check_limitations v ≡ ok tt
    → (ts : List String) × (v ≡ some (array (map label ts))) × IsLimited ts
unfolding check_limitations
check_limitations-array (some (array xs)) h =
    let (ts, same, limited) = check_limitations-IsLimited xs h in
    (ts, ap (λ ys. some (array ys)) same, limited)
check_limitations-array none h = cc
check_limitations-array (some null) h = cc
check_limitations-array (some object) h = cc
check_limitations-array (some (boolean b)) h = cc
check_limitations-array (some (integer n)) h = cc
check_limitations-array (some (negative n)) h = cc
check_limitations-array (some (float b n k)) h = cc
check_limitations-array (some (string t)) h = cc

pub check_evidence_shape-IsSound :
    (evidence : List (EvidenceKey × Json)) (metrics : List (MetricKey × Json))
    → check_evidence_shape evidence metrics ≡ ok tt
    → IsSound evidence metrics
unfolding check_evidence_shape
check_evidence_shape-IsSound evidence metrics e =
    let cleanup = >>-eq-ok _ _ e in
    let processed = >>-eq-ok _ _ cleanup.0 in
    let counts = >>-eq-ok _ _ processed.0 in
    let limitations = >>-eq-ok _ _ counts.0 in
    let validity = >>-eq-ok _ _ limitations.0 in
    let exact = >>-eq-ok _ _ validity.0 in
    let pages = >>-eq-ok _ _ exact.0 in
    let votes = >>-eq-ok _ _ pages.0 in
    let confidence = >>-eq-ok _ _ votes.0 in
    let (n, analyzed, low, high) = page_count-integer _ (guard-eq-ok _ _ pages.1) in
    let (limits, shape, limited) = check_limitations-array _ limitations.1 in
    record {
      pages = n;
      analyzed = analyzed;
      bounded = (low, high);
      processed = same_count-integer _ n (
          subst (λ v. same_count (metric MetricKey.pages_processed metrics) v ≡ true) analyzed
            (guard-eq-ok _ _ processed.1));
      cleanup = same_count-integer _ 0 (guard-eq-ok _ _ cleanup.1);
      votes = vote_count-integer _ (guard-eq-ok _ _ votes.1);
      confidence = guard-eq-ok _ _ confidence.1;
      limits = limits;
      limited = (shape, limited);
    }
