-- ===== src/Policy/Examples.antt =====
-- The policy at concrete commands.
use mantlerd.Base.{◌≡◌, refl, ◌↔◌, List, [], ◌∷◌, String, trim_space, elem}
use mantlerd.Policy.{
  permitted, denied, restricted_mode, allowed, is_destructive, restrict, listed_or,
}
use mantlerd.Policy.Permits.{Permits, allowed_iff}

abbrev opted_in : List String
opted_in = " nccl_test" ∷ []

allowed_iff_example :
    (allowed "restricted" "nccl_test " opted_in ≡ permitted)
    ↔ Permits "restricted" "nccl_test " opted_in
allowed_iff_example = allowed_iff "restricted" "nccl_test " opted_in

listed_with_blanks : allowed "restricted" "nccl_test " opted_in ≡ permitted
unfolding allowed restrict is_destructive listed_or elem trim_space
listed_with_blanks = refl

update_denied :
    allowed "restricted" "update_agent" opted_in
    ≡ denied (restricted_mode "update_agent" "restricted")
unfolding allowed restrict is_destructive listed_or elem trim_space
update_denied = refl
