-- ===== src/Verifier/Rules.antt =====
-- Stage 4 of onomancy_protocol/src/verifier/state.rs: graded chains and the generation rules.
pub mod Fate
pub mod Grading
use onomancy.Prelude.{
  ℕ, List, [], ◌∷◌, ◌++◌, Bool, true, false, not, ◌&&◌, any, if◌then◌else◌, ◌==◌,
}
use onomancy.Core.{DocAnchor, UnixSeconds}
use onomancy.Dnssec.Freshness.{is_fresh}
use onomancy.Verifier.Evidence.{BindingEvidence, freshness}
use onomancy.Verifier.Lineage.{Fork, LineageView, has_slot, descends}

-- A record's fate.
pub data Disposition : Type 0 where
  keep keep_surfacing_fork keep_contesting reject reject_surfacing_fork : Disposition

-- Whether some considered record attests a later generation of the same document.
unfoldable pub is_corroborated : BindingEvidence → LineageView → List BindingEvidence → Bool
is_corroborated r lineage considered =
    any
      (λ (other : BindingEvidence).
        other.document == r.document && descends lineage r.document r.generation other.generation)
      considered

-- `generation_rule`
unfoldable pub generation_rule :
    BindingEvidence → UnixSeconds → LineageView → List BindingEvidence → Disposition
generation_rule r now lineage considered =
    let fresh = is_fresh (freshness r now) in
    if fresh && not r.generation_on_path
    then reject
    else if has_slot lineage.protected r.document r.generation
    then (if not fresh
        then reject
        else if is_corroborated r lineage considered
        then reject_surfacing_fork
        else keep_contesting)
    else if has_slot lineage.implicated r.document r.generation
    then keep_surfacing_fork
    else keep

pub record GradedRecords : Type 0 where
  pub surviving : List BindingEvidence
  pub forks : List Fork
  pub contested_documents : List DocAnchor

-- What one record adds, by its fate.
unfoldable pub apply_disposition : Disposition → BindingEvidence → GradedRecords → GradedRecords
apply_disposition keep r g = record g { surviving = r ∷ g.surviving }
apply_disposition reject r g = g
apply_disposition keep_surfacing_fork r g = record g {
  surviving = r ∷ g.surviving;
  forks = record { document = r.document; at = r.generation } ∷ g.forks;
}
apply_disposition keep_contesting r g = record {
  surviving = r ∷ g.surviving;
  forks = record { document = r.document; at = r.generation } ∷ g.forks;
  contested_documents = r.document ∷ g.contested_documents;
}
apply_disposition reject_surfacing_fork r g = record g {
  forks = record { document = r.document; at = r.generation } ∷ g.forks;
}

grade_each : UnixSeconds → LineageView → List BindingEvidence → List BindingEvidence → GradedRecords
unfolding apply_disposition
grade_each now lineage considered [] = record {
  surviving = [];
  forks = [];
  contested_documents = [];
}
grade_each now lineage considered (r ∷ rs) =
    apply_disposition (generation_rule r now lineage considered) r
      (grade_each now lineage considered rs)

-- `apply_generation_rules`
unfoldable pub apply_generation_rules :
    List BindingEvidence → UnixSeconds → LineageView → GradedRecords
unfolding grade_each
apply_generation_rules considered now lineage = grade_each now lineage considered considered
