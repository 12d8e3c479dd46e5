-- ===== src/Kom/Names/Tests.antt =====
-- A root, object 1, with a container "a", object 2, that holds object 3 under the name "b".
use singularity.Common.{
  ℕ, ◌≡◌, length, refl, true, false, Option, none, some, arith, ◌==◌, if◌then◌else◌, List, [], ◌∷◌,
}
use singularity.Kom.Object.{Objects, kobject_ref, kobject_unref}
use singularity.Kom.Container.{OnsBinding, find, same_name, bind, lookup}
use singularity.Kom.Names.{
  Names, convert_nt_path, without_drive, squeeze, pieces, walk, release, ons_resolve, ons_bind,
  place_of, split_last, parent_of,
}
use singularity.Kom.Names.Path.{IsPath, convert_nt_path-IsPath}
use singularity.Kom.Names.Found.{ons_resolve-ons_bind}
use singularity.Kom.Names.Listing.{
  strip, strip_tail, ons_init, bind_new, release_all, new_all, ons_dirs, ons_enumerate, listed,
  ons_enumerate-listed,
}
use singularity.Kom.Names.Walk.{
  counted, OneMore, IsHeld, Followed, found_at, follow, ons_resolve-follow,
}

abbrev directory : ℕ → List OnsBinding
directory c =
    if c == 1
    then record { name = 97 ∷ []; obj = 2 } ∷ []
    else if c == 2
    then record { name = 98 ∷ []; obj = 3 } ∷ []
    else []

abbrev tree : Names
tree = record {
  root = 1;
  is_container = λ o. if o == 3 then false else true;
  bindings = directory;
  objects = record { ref_count = λ o. 1; deleted = λ _. false };
}

tree-IsHeld : IsHeld tree
tree-IsHeld = record {
  rooted = omega arith;
  bound = λ c o name e. omega arith;
  bounded = λ o. omega arith;
}

-- `C:\a\\b`
abbrev nt_path : List ℕ
nt_path = 67 ∷ 58 ∷ 92 ∷ 97 ∷ 92 ∷ 92 ∷ 98 ∷ []

convert_test : convert_nt_path nt_path ≡ 47 ∷ 97 ∷ 47 ∷ 98 ∷ []
unfolding convert_nt_path without_drive squeeze
convert_test = refl

found_test : found_at tree (convert_nt_path nt_path) ≡ some 3
unfolding convert_nt_path without_drive squeeze found_at pieces follow find same_name
found_test = refl

convert_nt_path-IsPath_example :
    IsPath (convert_nt_path nt_path)
    × (convert_nt_path (convert_nt_path nt_path) ≡ convert_nt_path nt_path)
convert_nt_path-IsPath_example = convert_nt_path-IsPath nt_path

ons_resolve-follow_example :
    Followed tree (ons_resolve tree (some nt_path)) (found_at tree (convert_nt_path nt_path))
ons_resolve-follow_example = ons_resolve-follow tree nt_path tree-IsHeld

abbrev code : Option (ℕ × Names) → Option ℕ
code none = none
code (some (c, _)) = some c

-- `/a/b` is taken, `/a/c` is free, and `/x/c` has no parent.
taken_test : code (ons_bind true tree (47 ∷ 97 ∷ 47 ∷ 98 ∷ []) 3) ≡ some 4
unfolding ons_bind place_of split_last parent_of ons_resolve walk pieces release convert_nt_path
    without_drive squeeze find same_name bind lookup kobject_ref kobject_unref
taken_test = refl

missing_test : code (ons_bind true tree (47 ∷ 120 ∷ 47 ∷ 99 ∷ []) 3) ≡ some 2
unfolding ons_bind place_of split_last parent_of ons_resolve walk pieces release convert_nt_path
    without_drive squeeze find same_name bind lookup kobject_ref kobject_unref
missing_test = refl

-- `/a/c`
abbrev free_path : List ℕ
free_path = 47 ∷ 97 ∷ 47 ∷ 99 ∷ []

abbrev after : Option (ℕ × Names) → Names
after none = tree
after (some (_, n)) = n

bound : ons_bind true tree free_path 3 ≡ some (0, after (ons_bind true tree free_path 3))
unfolding ons_bind place_of split_last parent_of ons_resolve walk pieces release convert_nt_path
    without_drive squeeze find same_name bind lookup kobject_ref kobject_unref
bound = refl

bound-IsHeld : IsHeld (after (ons_bind true tree free_path 3))
unfolding ons_bind place_of split_last parent_of ons_resolve walk pieces release convert_nt_path
    without_drive squeeze find same_name bind lookup kobject_ref kobject_unref
bound-IsHeld = record {
  rooted = omega arith;
  bound = λ c o name e. ground arith;
  bounded = λ o. ground arith;
}

ons_resolve-ons_bind_example :
    Followed
      (after (ons_bind true tree free_path 3))
      (ons_resolve (after (ons_bind true tree free_path 3)) (some free_path))
      (some 3)
ons_resolve-ons_bind_example =
    ons_resolve-ons_bind true tree (after (ons_bind true tree free_path 3)) free_path 3 tree-IsHeld
      bound bound-IsHeld

-- The trailing slash is dropped: the parent of `/a/` is the root.
parent_test : strip (47 ∷ 97 ∷ 47 ∷ 47 ∷ []) ≡ 47 ∷ 97 ∷ []
unfolding strip strip_tail
parent_test = refl

abbrev length_of_root : Option Names → ℕ
length_of_root none = 0
length_of_root (some n) = length (n.bindings n.root)

init_test : length_of_root (ons_init true tree.objects (λ _. true) 10 (ons_dirs 11 12 13 14 15)) ≡ 5
unfolding ons_init bind_new release_all new_all ons_dirs release bind find same_name kobject_ref
    kobject_unref
init_test = refl

ons_enumerate-listed_test :
    (s : Objects) × (ons_enumerate tree free_path 0
      ≡ some (listed tree (found_at tree (convert_nt_path free_path)) 0, counted tree s))
    × OneMore tree.objects s none
ons_enumerate-listed_test = ons_enumerate-listed tree free_path 0 tree-IsHeld
