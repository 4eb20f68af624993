-- ===== src/Tests/Export.antt =====
-- The theorems of the export at concrete inputs.
use flying_shuttle.Prelude.{inl, inr, arith, ◌≡◌, refl, String}
use flying_shuttle.Export.{slugify}
use flying_shuttle.Export.Slug.{IsSlug, slugify_lem}

abbrev as_it_is : String → String
as_it_is s = s

slugify_lem_example :
    IsSlug (slugify as_it_is "my_node 1!")
    × (slugify as_it_is (slugify as_it_is "my_node 1!") ≡ slugify as_it_is "my_node 1!")
    × (slugify as_it_is "a_b 1" ≡ "a-b-1")
slugify_lem_example =
    slugify_lem as_it_is (λ s h. refl) "my_node 1!" "a_b 1"
      (
        inl (inl (omega arith, omega arith)),
        (
          inr (inr refl),
          (
            inl (inl (omega arith, omega arith)),
            (inr (inl refl), (inl (inr (inl (omega arith, omega arith))), tt)),
          ),
        ),
      )

slugify_run : slugify as_it_is "my_node 1!" ≡ "my-node-1"
unfolding slugify
slugify_run = refl
