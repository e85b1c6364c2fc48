-- ===== src/Judge/Instructions.antt =====
-- judge.py: `_RISK_INSTRUCTIONS`.
use ops_guard.Prelude.{String, ◌⊕◌}

abbrev pub risk_instructions : String
risk_instructions =
    "Classify the operational risk of the proposed invocation from the cited "
    ⊕ "verified procedure and the invocation itself, and select exactly one "
    ⊕ "risk class from the menu. Your entire output MUST be a bare JSON string "
    ⊕ "— one of the menu's option ids — never an object. Reserve the inability "
    ⊕ "object exclusively for a state that is literally unreadable or "
    ⊕ "self-contradictory: incomplete-feeling context, an irreversible or "
    ⊕ "destructive operation, or a merely consequential decision is never a "
    ⊕ "reason to abstain — decide."
