-- ===== src/Routing/Decision.antt =====
-- engine.py: when `select_candidate` returns, and when it raises.
use ecoroute_ht.Base.{List, ◌↔◌, Member}
use ecoroute_ht.Numbers.{Arithmetic}
use ecoroute_ht.Routing.Candidate.{EndpointCandidate}
use ecoroute_ht.Routing.Exclusion.{Query}
use ecoroute_ht.Routing.Selection.{select_candidate}
use ecoroute_ht.Routing.Admission.{IsAdmissible}
use ecoroute_ht.Routing.Soundness.{select_candidate-IsAdmissible}
use ecoroute_ht.Routing.Totality.{Returns, select_candidate_total}

-- The selection returns exactly when some candidate meets every hard constraint; otherwise it raises.
pub select_candidate_iff :
    (A : Arithmetic) (q : Query A) (cs : List (EndpointCandidate A))
    → Returns (select_candidate A q cs)
      ↔ ((c : EndpointCandidate A) × (Member c cs × IsAdmissible A q c))
select_candidate_iff A q cs = (
  λ (s, e). (s.selected, select_candidate-IsAdmissible A q cs s e),
  λ (c, (m, a)). select_candidate_total A q cs c m a,
)
