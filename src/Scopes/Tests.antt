-- ===== src/Scopes/Tests.antt =====
-- Lists of scopes.
use helix_core.Prelude.{◌≡◌, refl, none, List, String, [], ◌∷◌}
use helix_core.Scopes.{
  find_scope_problem, scope_problem, has_separator, is_separator, units, first_problem,
}

abbrev scopes : List String
scopes = "read:mail" ∷ "send" ∷ []

accepted_run : find_scope_problem scopes ≡ none
unfolding find_scope_problem scope_problem first_problem has_separator is_separator units
accepted_run = refl
