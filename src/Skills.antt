-- ===== src/Skills.antt =====
-- packages/delta/src/skills/resolve-skills.ts
use delta_agents.Common.{
  String, Option, none, some, List, [], ◌∷◌, ◌==◌, Result, ok, err, if◌then◌else◌,
}
use delta_agents.Host.{
  Host, Skill, SkillRef, by_name, inline, AvailableSkill, Reason, unknown_skill,
}

-- the `Map` built from the agent's skills: the last skill of a name wins
pub skill_named : List Skill → String → Option Skill
skill_named [] name = none
skill_named (s ∷ rest) name =
    let later = skill_named rest name in
    elim later [ some found ↦ some found | none ↦ if s.name == name then some s else none ]

prepend : Skill → Result Reason (List Skill) → Result Reason (List Skill)
prepend s (ok rest) = ok (s ∷ rest)
prepend s (err reason) = err reason

resolve_named : Option Skill → String → Result Reason (List Skill) → Result Reason (List Skill)
resolve_named none name rest = err (unknown_skill name)
resolve_named (some s) name rest = prepend s rest

pub resolve_skill_refs : List SkillRef → List Skill → Result Reason (List Skill)
unfolding prepend resolve_named
resolve_skill_refs [] agent_skills = ok []
resolve_skill_refs (by_name name ∷ refs) agent_skills =
    resolve_named (skill_named agent_skills name) name (resolve_skill_refs refs agent_skills)
resolve_skill_refs (inline s ∷ refs) agent_skills = prepend s (resolve_skill_refs refs agent_skills)

abbrev available : Skill → Option String → List AvailableSkill → List AvailableSkill
available s none rest = rest
available s (some content) rest =
    record { name = s.name; description = s.description; content = content } ∷ rest

module _ (H : Host) where
  open H use {World, load_skill}

  -- a skill with no SKILL.md is left out
  pub build_available_skills : List Skill → World → List AvailableSkill × World
  build_available_skills [] w = ([], w)
  build_available_skills (s ∷ skills) w =
      let (content, w') = load_skill s.folder w in
      let (rest, w'') = build_available_skills skills w' in (available s content rest, w'')
