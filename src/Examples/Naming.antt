-- ===== src/Examples/Naming.antt =====
-- Two filters that have the same cursor.
use mathlib.Core.List.Perm
use mathlib.Core.List.{Perm}
use cipolin.Base.{List, Bool, true, false, some, none, if◌then◌else◌, ◌≡◌, [], ◌∷◌}
use cipolin.Base.Int.{pos}
use cipolin.Base.Texts.{String, str_eq, lookup}
use cipolin.Nostr.{Filter}
use cipolin.Fetcher.Identity.{generate_cursor_id, generate_filter_hash}
use cipolin.Fetcher.Identity.Same.{Agrees, generate_cursor_id-eq}
use cipolin.Examples.Fetching.{digest, all_posts}

-- The same conditions twice, in two orders.
abbrev some_posts : Filter
some_posts = record all_posts { kinds = 1 ∷ 6 ∷ []; tags = ("t", "go" ∷ "nostr" ∷ []) ∷ [] }

abbrev same_posts : Filter
same_posts = record all_posts {
  kinds = 6 ∷ 1 ∷ [];
  tags = ("t", "nostr" ∷ "go" ∷ []) ∷ [];
  until = pos 9;
}

abbrev when_named : Bool → List String → List String
when_named test values = elim (if test then some values else none) [ none ↦ [] | some vs ↦ vs ]

either_order :
    (test : Bool)
    → Perm (when_named test ("go" ∷ "nostr" ∷ [])) (when_named test ("nostr" ∷ "go" ∷ []))
either_order true = Perm.swap _ _ _
either_order false = Perm.refl _

some_posts-Agrees : Agrees some_posts same_posts
unfolding lookup
some_posts-Agrees = record {
  ids = Perm.refl _;
  authors = Perm.refl _;
  kinds = Perm.swap _ _ _;
  names = Perm.refl _;
  values = λ key. either_order (str_eq "t" key);
}

generate_cursor_id-eq_example :
    (generate_cursor_id digest "wss://r" some_posts
      ≡ generate_cursor_id digest "wss://r" same_posts)
    × (generate_filter_hash digest some_posts ≡ generate_filter_hash digest same_posts)
generate_cursor_id-eq_example =
    generate_cursor_id-eq digest "wss://r" some_posts same_posts some_posts-Agrees
