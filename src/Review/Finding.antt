-- ===== src/Review/Finding.antt =====
-- review.py: severities, findings and review results.
use jenkins_service.Prelude.{ℕ, String, Bool, true, false, List, any}

pub data Severity : Type 0 where
  critical high medium low : Severity

-- `severity.value`
abbrev pub severity_value : Severity → String
severity_value Severity.critical = "critical"
severity_value Severity.high = "high"
severity_value Severity.medium = "medium"
severity_value Severity.low = "low"

-- `finding.severity == Severity.CRITICAL`
abbrev pub is_critical : Severity → Bool
is_critical Severity.critical = true
is_critical _ = false

pub record ReviewFinding : Type 0 where
  pub severity : Severity
  pub title : String
  pub body : String
  pub path : String
  pub line : ℕ

pub record ReviewResult : Type 0 where
  pub summary : String
  pub findings : List ReviewFinding

unfoldable pub has_critical_findings : ReviewResult → Bool
has_critical_findings r = any (λ finding. is_critical finding.severity) r.findings
