-- ===== src/Health/Transitions.antt =====
-- What the health check logs: each change of a dependency once.
use advanced_search_api.Base.{
  Text, Bool, true, false, not, ◌||◌, ◌&&◌, ◌≡◌, refl, sym, ◌∙◌, ap, List, [], ◌∷◌, ◌++◌,
  if◌then◌else◌, keep, text_eq, text_eq_iff, arith, append_assoc, append-nil,
}
use advanced_search_api.Shared.{LogLine, info, warn}
use advanced_search_api.Health.{
  Status, up, down, DependencyHealth, HealthState, is_up, is_down, recovered, is_member, without,
  transition, transition_to, report_transitions,
}

-- Which dependencies are known as down, as a function, and the lines that a run of results gives: one
-- where a dependency is down that was not known as down, and one where it is up again.
abbrev pub line_of : Status → Bool → DependencyHealth → List LogLine
line_of down false d = warn (is_down d) ∷ []
line_of down true d = []
line_of up true d = info (recovered d) ∷ []
line_of up false d = []

abbrev noted : DependencyHealth → (Text → Bool) → Text → Bool
noted d known n = if text_eq d.name n then not (is_up d.status) else known n

unfoldable pub changes : List DependencyHealth → (Text → Bool) → List LogLine
changes [] known = []
changes (d ∷ ds) known = line_of d.status (known d.name) d ++ changes ds (noted d known)

is_member-append :
    (n m : Text) (l : List Text) → is_member n (l ++ m ∷ []) ≡ (is_member n l || text_eq m n)
unfolding is_member
is_member-append n m [] = ground arith
is_member-append n m (x ∷ l) = ground (arith, is_member-append n m l)

is_member-without :
    (n m : Text) (l : List Text) → is_member n (without m l) ≡ (is_member n l && not (text_eq m n))
unfolding is_member without keep
is_member-without n m [] = refl
is_member-without n m (x ∷ l) =
    ground (arith, is_member-without n m l, text_eq_iff x m, text_eq_iff x n, text_eq_iff m n)

transition-noted :
    (d : DependencyHealth) (s : HealthState) (n : Text)
    → is_member n (transition d s).down_dependencies
      ≡ noted d (λ m. is_member m s.down_dependencies) n
unfolding transition
transition-noted d s n = go d.status
  where
    go :
        (status : Status)
        → is_member n (transition_to status d s).down_dependencies
          ≡ (if text_eq d.name n then not (is_up status) else is_member n s.down_dependencies)
    go down = ground (arith, is_member-append n d.name s.down_dependencies, text_eq_iff d.name n)
    go up = ground (arith, is_member-without n d.name s.down_dependencies, text_eq_iff d.name n)

transition_log :
    (d : DependencyHealth) (s : HealthState)
    → (transition d s).log ≡ s.log ++ line_of d.status (is_member d.name s.down_dependencies) d
unfolding transition
transition_log d s = go d.status
  where
    go :
        (status : Status)
        → (transition_to status d s).log
          ≡ s.log ++ line_of status (is_member d.name s.down_dependencies) d
    go down = ground (arith, append-nil s.log)
    go up = ground (arith, append-nil s.log)

changes_same :
    (ds : List DependencyHealth) (f g : Text → Bool)
    → ((n : Text) → f n ≡ g n)
    → changes ds f ≡ changes ds g
unfolding changes
changes_same [] f g h = refl
changes_same (d ∷ ds) f g h = rw (h d.name) (
    ap (λ l. line_of d.status (g d.name) d ++ l)
      (changes_same ds (noted d f) (noted d g) λ n. rw (h n)))

-- Over any run of results, of one check or of many, the log gets exactly one warning when a dependency
-- goes down and one line when it is up again, and nothing for a result that repeats the one before.
pub report_transitions-changes :
    (ds : List DependencyHealth) (s : HealthState)
    → (report_transitions ds s).log ≡ s.log ++ changes ds (λ n. is_member n s.down_dependencies)
unfolding report_transitions changes
report_transitions-changes [] s = sym (append-nil s.log)
report_transitions-changes (d ∷ ds) s =
    report_transitions-changes ds (transition d s)
    ∙ ap (λ l. l ++ changes ds (λ n. is_member n (transition d s).down_dependencies))
        (transition_log d s)
    ∙ append_assoc s.log _ _
    ∙ ap (λ l. s.log ++ (line_of d.status (is_member d.name s.down_dependencies) d ++ l))
        (changes_same ds _ _ (transition-noted d s))
