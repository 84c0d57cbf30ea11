-- ===== src/Unit/Skill/Parse.antt =====
-- Reading a skill file back (ParseSkillFile of pkg/unit/skill/store.go).
use Prim.Native.String.{◌++◌ as append}
use ai_inference_managed_by.Base.{String, false, ◌≡◌, refl, ◌≢◌, Option, some, arith, eq_iff}
use ai_inference_managed_by.Base.Result.{ok}
use ai_inference_managed_by.Base.Text.{contains, cut-append, strip_prefix-append}
use ai_inference_managed_by.Unit.Skill.{Skill, FrontMatter, parse_skill_file}

-- The skill that a front matter and a body describe.
abbrev pub skill_of : FrontMatter → String → Skill
skill_of fm body = record {
  id = fm.id;
  name = fm.name;
  category = fm.category;
  description = fm.description;
  trigger = fm.trigger;
  content = body;
  priority = fm.priority;
  enabled = fm.enabled;
  source = fm.source;
}

-- The file that the parser expects for a front matter and a body; the program writes none.
abbrev pub skill_file : String → String → String
skill_file front_matter body =
    append "---" (append front_matter (append "\n---" (append "\n" body)))

-- A file that stands for the text of a front matter, in which no line after the first starts with
-- three dashes, and a body is read as that front matter and that body, if the decoder reads from the
-- text a front matter whose id and name are not empty.
pub parse_skill_file-skill_file :
    (decode : String → Option FrontMatter) (front_matter body : String) (fm : FrontMatter)
    → contains front_matter "\n---" ≡ false
    → decode front_matter ≡ some fm
    → fm.id ≢ ""
    → fm.name ≢ ""
    → parse_skill_file decode (skill_file front_matter body) ≡ ok (skill_of fm body)
unfolding parse_skill_file
parse_skill_file-skill_file decode front_matter body fm free known has_id has_name = ground (
  arith,
  strip_prefix-append "---" (append front_matter (append "\n---" (append "\n" body))),
  cut-append "\n" "---" front_matter (append "\n" body) refl free,
  strip_prefix-append "\n" body,
  eq_iff fm.id "",
  eq_iff fm.name "",
)
