-- ===== src/Branches.antt =====
-- src/branches.ts: which branches of a repository are published, and under which major.
pub mod ReleaseMajor
pub mod Selection
pub mod HighWater
pub mod Select
pub mod Members
pub mod Majors
mod Examples
use jsrproxy.Common.{
  ℕ, zero, suc, ◌+◌, Bool, true, false, not, ◌&&◌, Option, none, some, List, [], ◌∷◌, ◌++◌, Text,
  Result, ok, err, Error, default_branch_missing, leb, ltb, if◌then◌else◌, ◌==◌, filter, head?,
  sort_by, or_throw, ◌>>=◌, max_safe_integer, max, text_eq, nat_eq,
}
use jsrproxy.Common.Decimal.{is_digit, number}
use jsrproxy.Common.Map.{Map, get}

pub record CommitTip : Type 0 where
  pub sha : Text
  pub committed_at : ℕ

pub record BranchDiscovery : Type 0 where
  pub default_branch : Text
  pub branches : Map Text CommitTip

pub record BranchState : Type 0 where
  pub highest_observed_release_major : Option ℕ

pub record SelectedBranch : Type 0 where
  pub branch : Text
  pub major : ℕ
  pub tip : CommitTip

pub record BranchSelection : Type 0 where
  pub state : BranchState
  pub branches : List SelectedBranch

-- [0-9]*
unfoldable pub all_digits : Text → Bool
all_digits [] = true
all_digits (c ∷ s) = is_digit c && all_digits s

-- 0|[1-9][0-9]*
unfoldable pub is_numeral : Text → Bool
unfolding all_digits
is_numeral [] = false
is_numeral (c ∷ []) = is_digit c
is_numeral (c ∷ d ∷ s) = (leb b'1' c && leb c b'9') && all_digits (d ∷ s)

-- `Number(match[1])` and `Number.isSafeInteger`: a numeral above `max_safe_integer` is rounded to a
-- number that is also above it.
safe_number : Text → Option ℕ
safe_number s = let n = number s in if leb n max_safe_integer then some n else none

unfoldable pub release_major : Text → Option ℕ
unfolding is_numeral safe_number
release_major [] = none
release_major (c ∷ s) = if c == b'v' && is_numeral s then safe_number s else none

-- `observed === undefined ? major : Math.max(observed, major)`
unfoldable pub observe : Option ℕ → ℕ → ℕ
observe none major = major
observe (some observed) major = max observed major

-- One round of the loop over the branches: the releases so far and the highest major so far.
unfoldable pub visit :
    Text → CommitTip → Option ℕ → List SelectedBranch × Option ℕ → List SelectedBranch × Option ℕ
unfolding observe
visit branch tip none (releases, observed) = (releases, observed)
visit branch tip (some major) (releases, observed) = (
  releases ++ record { branch = branch; major = major; tip = tip } ∷ [],
  some (observe observed major),
)

unfoldable pub collect :
    Map Text CommitTip → List SelectedBranch × Option ℕ → List SelectedBranch × Option ℕ
collect [] acc = acc
collect ((branch, tip) ∷ rest) acc = collect rest (visit branch tip (release_major branch) acc)

-- `observed === undefined ? 0 : observed + 1`
unfoldable pub default_major : Option ℕ → ℕ
default_major none = 0
default_major (some observed) = observed + 1

-- The release at the tip of the default branch that has the highest major.
unfoldable pub same_commit_release : List SelectedBranch → CommitTip → Option SelectedBranch
same_commit_release releases default_tip = head? (
    sort_by (λ left right. leb right.major left.major)
      (filter (λ release. release.tip.sha == default_tip.sha) releases))

unfoldable pub with_default :
    List SelectedBranch → SelectedBranch → Option SelectedBranch → List SelectedBranch
with_default releases default none = releases ++ default ∷ []
with_default releases default (some release) = releases

unfoldable pub select_branches : BranchDiscovery → BranchState → Result BranchSelection
select_branches discovery prior = do
  let (releases, observed) = collect discovery.branches ([], prior.highest_observed_release_major)
  default_tip ←
      or_throw (get discovery.branches discovery.default_branch)
        (default_branch_missing discovery.default_branch)
  ok (record {
    state = record { highest_observed_release_major = observed };
    branches =
        with_default releases
          (record {
            branch = discovery.default_branch;
            major = default_major observed;
            tip = default_tip;
          })
          (same_commit_release releases default_tip);
  })
