-- ===== src/Protocol/Formatters.antt =====
-- src/protocol/formatters.ts: the texts of a status update. The text of a time is an argument.
use Prim.Native.Char.{Char, code}
use aof.Prelude.{
  String, Bool, true, false, ◌&&◌, ◌||◌, Option, none, some, List, [], ◌∷◌, ◌++◌, if◌then◌else◌,
  ◌==◌, concat, leb, eqb, ◌≡◌, refl,
}
use aof.Tasks.Schema.{TaskStatus}
use aof.Tasks.Promotion.{truthy}
use aof.Throttle.{named}

pub record StatusUpdatePayload : Type 0 where
  pub agent_id : String
  pub status : Option TaskStatus
  pub progress : Option String
  pub blockers : Option (List String)
  pub notes : Option String

-- `texts.join(separator)`
unfoldable pub join : String → List String → String
unfolding concat
join separator [] = ""
join separator (s ∷ []) = s
join separator (s ∷ t ∷ ts) = concat (concat s separator) (join separator (t ∷ ts))

abbrev pub has_blockers : Option (List String) → Bool
has_blockers none = false
has_blockers (some []) = false
has_blockers (some (b ∷ bs)) = true

unfoldable pub should_append_work_log : StatusUpdatePayload → Bool
should_append_work_log p = truthy p.progress || (truthy p.notes || has_blockers p.blockers)

abbrev labelled : String → Option String → List String
labelled label none = []
labelled label (some text) = concat label text ∷ []

abbrev joined : Option (List String) → Option String
joined none = none
joined (some []) = none
joined (some (b ∷ bs)) = some (join ", " (b ∷ bs))

unfoldable pub work_log_details : StatusUpdatePayload → List String
unfolding join concat
work_log_details p =
    labelled "Progress: " (named p.progress)
    ++ (labelled "Notes: " (named p.notes) ++ labelled "Blockers: " (joined p.blockers))

abbrev entry_of : String → List String → Option String
entry_of time [] = none
entry_of time (d ∷ ds) = some (concat (concat (concat "- " time) " ") (join " | " (d ∷ ds)))

unfoldable pub build_work_log_entry : String → StatusUpdatePayload → Option String
unfolding work_log_details concat join
build_work_log_entry time p = entry_of time (work_log_details p)

-- The white space that `trim` removes.
abbrev is_white : Char → Bool
is_white c =
    let n = code c in
    (leb 9 n && leb n 13)
    || (eqb n 32
        || (eqb n 160
            || (eqb n 5760
                || ((leb 8192 n && leb n 8202)
                    || (eqb n 8232
                        || (eqb n 8233
                            || (eqb n 8239 || (eqb n 8287 || (eqb n 12288 || eqb n 65279)))))))))

unfoldable pub trim_start : String → String
trim_start String.[] = String.[]
trim_start (String.◌∷◌ c s) = let rest = trim_start s in if is_white c then rest else String.◌∷◌ c s

unfoldable pub trim_end : String → String
trim_end String.[] = String.[]
trim_end (String.◌∷◌ c s) =
    let rest = trim_end s in if is_white c && rest == "" then "" else String.◌∷◌ c rest

unfoldable pub trim : String → String
unfolding trim_start trim_end
trim s = trim_end (trim_start s)

unfoldable pub append_section : String → String → List String → String
unfolding trim concat join
append_section body title [] = body
append_section body title (line ∷ lines) =
    let section = join "\n" (concat "## " title ∷ line ∷ lines) in
    if trim body == "" then section else concat (concat (trim body) "\n\n") section

-- With a heading, an entry of the work log.
log_lines :
    (append_section "" "Work Log" ("- a" ∷ []) ≡ "## Work Log\n- a")
    × (append_section " Do it. \n" "Work Log" ("- a" ∷ []) ≡ "Do it.\n\n## Work Log\n- a")
unfolding append_section trim trim_start trim_end join concat
log_lines = (refl, refl)
