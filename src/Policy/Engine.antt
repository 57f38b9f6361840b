-- ===== src/Policy/Engine.antt =====
-- app/policy/engine.py: the ordered rules, the first match, and the events that a decision fires.
use orchestration_system.Common.{
  String, Bool, true, false, not, ◌&&◌, ◌||◌, List, [], ◌∷◌, if◌then◌else◌,
}
use orchestration_system.Enums.{PolicyDecision, ProposalType, RiskLevel, DataClassification}
use orchestration_system.Policy.Schemas.{ExpansionProposal, PolicyJudgment}

pub record Rule : Type 0 where
  pub name : String
  pub decision : PolicyDecision
  pub predicate : ExpansionProposal → Bool
  pub reason : String
  pub alternatives : List String

abbrev pub is_confidential : DataClassification → Bool
is_confidential DataClassification.confidential = true
is_confidential _ = false

abbrev pub is_high : RiskLevel → Bool
is_high RiskLevel.high = true
is_high _ = false

abbrev pub is_low : RiskLevel → Bool
is_low RiskLevel.low = true
is_low _ = false

abbrev pub is_agent : ProposalType → Bool
is_agent ProposalType.agent = true
is_agent _ = false

abbrev mvp_block_alts : List String
mvp_block_alts =
    "차단된 기능을 제외한 나머지 범위로 먼저 진행하기" ∷ "해당 기능은 기존 외부 서비스 링크로 대체하기" ∷ "개발자에게 물어볼 상담 자료를 만들어 함께 계획 세우기"
    ∷ []

unfoldable pub rules : List Rule
rules =
    record {
      name = "block:policy_bypass";
      decision = PolicyDecision.auto_blocked;
      predicate = λ p. p.bypasses_policy;
      reason = "정책 엔진을 우회하려는 요청은 허용되지 않습니다.";
      alternatives = [];
    }
    ∷ record {
      name = "block:core_or_orchestrator";
      decision = PolicyDecision.auto_blocked;
      predicate = λ p. p.modifies_core_or_orchestrator;
      reason = "Core Agent 또는 Orchestrator 자체를 바꾸는 작업은 허용되지 않습니다.";
      alternatives = [];
    }
    ∷ record {
      name = "block:system_prompt";
      decision = PolicyDecision.auto_blocked;
      predicate = λ p. p.modifies_agent_system_prompt;
      reason = "Agent의 동작 지침(System Prompt)을 바꾸는 작업은 허용되지 않습니다.";
      alternatives = [];
    }
    ∷ record {
      name = "block:admin_privilege";
      decision = PolicyDecision.auto_blocked;
      predicate = λ p. p.admin_privilege;
      reason = "관리자 권한이 필요한 작업은 이 시스템에서 자동으로 수행하지 않습니다.";
      alternatives = [];
    }
    ∷ record {
      name = "block:secret_access";
      decision = PolicyDecision.auto_blocked;
      predicate = λ p. p.accesses_secret;
      reason = "Secret(인증정보) 조회나 전달이 포함된 작업은 허용되지 않습니다.";
      alternatives = [];
    }
    ∷ record {
      name = "block:external_network_server";
      decision = PolicyDecision.auto_blocked;
      predicate = λ p. p.external_network_server;
      reason = "외부 네트워크에 접근하는 새 MCP 서버를 만드는 작업은 MVP에서 자동으로 진행하지 않습니다.";
      alternatives = "개발자와 함께 별도 프로젝트로 계획 세우기" ∷ "외부 연동 없이 파일(엑셀/CSV) 기반으로 범위 줄이기" ∷ [];
    }
    ∷ record {
      name = "block:mvp_domain";
      decision = PolicyDecision.auto_blocked;
      predicate = λ p. p.mvp_blocked_domain;
      reason = "결제·법적 민감정보·운영 DB 연동은 안전을 위해 이 시스템에서 자동으로 만들지 않습니다.";
      alternatives = mvp_block_alts;
    }
    ∷ record {
      name = "block:confidential_external_mcp";
      decision = PolicyDecision.auto_blocked;
      predicate = λ p.
          p.is_new_external_connection
          && not p.in_allowlist
          && (is_confidential p.data_classification || is_high p.risk_level);
      reason = "기밀 데이터에 접근하거나 위험도가 높은 외부 연결은 정책상 자동 연결할 수 없습니다.";
      alternatives = "기밀 데이터 대신 내보낸 사본 파일을 사용하기" ∷ "개발자 자문 후 별도 승인 절차로 진행하기" ∷ [];
    }
    ∷ record {
      name = "expert:new_credentials";
      decision = PolicyDecision.expert_required;
      predicate = λ p. p.creates_credentials;
      reason = "새 인증정보(로그인/연동 키) 설정이 필요해 개발자 확인이 필요합니다.";
      alternatives = [];
    }
    ∷ record {
      name = "expert:permission_escalation";
      decision = PolicyDecision.expert_required;
      predicate = λ p. p.permission_escalation;
      reason = "Agent 권한을 넓히는 작업이라 개발자 확인이 필요합니다.";
      alternatives = [];
    }
    ∷ record {
      name = "expert:org_wide_registration";
      decision = PolicyDecision.expert_required;
      predicate = λ p. p.org_wide_registration;
      reason = "조직 공통 자원으로 등록하는 작업이라 개발자 확인이 필요합니다.";
      alternatives = [];
    }
    ∷ record {
      name = "expert:new_model_adapter";
      decision = PolicyDecision.expert_required;
      predicate = λ p. p.new_model_adapter;
      reason = "새로운 모델 연동(Adapter) 등록이라 개발자 확인이 필요합니다.";
      alternatives = [];
    }
    ∷ record {
      name = "expert:large_architecture";
      decision = PolicyDecision.expert_required;
      predicate = λ p. p.large_architecture_change;
      reason = "대규모 구조 변경이 포함되어 개발자 확인이 필요합니다.";
      alternatives = [];
    }
    ∷ record {
      name = "expert:external_mcp_not_allowlisted";
      decision = PolicyDecision.expert_required;
      predicate = λ p. p.is_new_external_connection && not p.in_allowlist;
      reason = "허용 목록에 없는 외부 서비스 연결이라 개발자가 연결 방법을 확인해야 합니다.";
      alternatives = [];
    }
    ∷ record {
      name = "user:allowlisted_write";
      decision = PolicyDecision.user_approval;
      predicate = λ p. p.write_access && p.in_allowlist;
      reason = "허용 목록에 있는 도구의 쓰기 기능을 켭니다. 무엇을 쓰는지 확인하고 승인해 주세요.";
      alternatives = [];
    }
    ∷ record {
      name = "user:allowlisted_external";
      decision = PolicyDecision.user_approval;
      predicate = λ p. p.is_new_external_connection && p.in_allowlist;
      reason = "허용 목록에 있는 외부 서비스에 연결합니다. 기능·비용 관점에서 확인하고 승인해 주세요.";
      alternatives = [];
    }
    ∷ record {
      name = "auto:reuse_existing";
      decision = PolicyDecision.auto_approve;
      predicate = λ p. p.reuse_existing;
      reason = "이미 검증된 기존 자원을 그대로 재사용하므로 자동으로 진행합니다.";
      alternatives = [];
    }
    ∷ record {
      name = "auto:readonly_lowrisk_mcp";
      decision = PolicyDecision.auto_approve;
      predicate = λ p.
          not p.write_access
          && p.in_allowlist
          && not p.is_new_external_connection
          && is_low p.risk_level
          && not (is_confidential p.data_classification);
      reason = "읽기 전용이며 위험도가 낮은 도구를 켜므로 자동으로 진행합니다.";
      alternatives = [];
    }
    ∷ record {
      name = "auto:project_scoped_agent";
      decision = PolicyDecision.auto_approve;
      predicate = λ p.
          is_agent p.kind
          && p.project_scoped
          && not p.accesses_secret
          && not p.permission_escalation;
      reason = "이 프로젝트 범위로만 동작하고 Secret 접근이 없는 Agent라 자동으로 등록합니다.";
      alternatives = [];
    }
    ∷ []

unfoldable pub fallback : PolicyJudgment
fallback = record {
  decision = PolicyDecision.user_approval;
  matched_rule = "fallback:needs_user";
  reason = "자동으로 판단하기 어려운 요청이라 사용자 확인 후 진행합니다.";
  alternatives = [];
}

abbrev pub judge : Rule → PolicyJudgment
judge rule = record {
  decision = rule.decision;
  matched_rule = rule.name;
  reason = rule.reason;
  alternatives = rule.alternatives;
}

-- the loop of `decide` over the rules
unfoldable pub first_match : List Rule → ExpansionProposal → PolicyJudgment
unfolding fallback
first_match [] p = fallback
first_match (rule ∷ rest) p =
    let later = first_match rest p in if rule.predicate p then judge rule else later

-- `PolicyEngine.decide`
unfoldable pub decide : ExpansionProposal → PolicyJudgment
unfolding first_match rules
decide p = first_match rules p

-- PRODUCT_EXPANSION_EVENT
unfoldable pub product_expansion_event : PolicyDecision → String
product_expansion_event PolicyDecision.auto_approve = "PROPOSAL_AUTO_APPROVED"
product_expansion_event PolicyDecision.user_approval = "PROPOSAL_NEEDS_USER"
product_expansion_event PolicyDecision.expert_required = "PROPOSAL_NEEDS_EXPERT"
product_expansion_event PolicyDecision.auto_blocked = "PROPOSAL_BLOCKED"

-- DEV_PLAN_EVENT
unfoldable pub dev_plan_event : PolicyDecision → String
dev_plan_event PolicyDecision.auto_approve = "PLAN_AUTO_APPROVED"
dev_plan_event PolicyDecision.user_approval = "PLAN_NEEDS_USER"
dev_plan_event PolicyDecision.expert_required = "PLAN_NEEDS_EXPERT"
dev_plan_event PolicyDecision.auto_blocked = "PLAN_BLOCKED"
