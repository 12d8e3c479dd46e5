-- ===== src/Kom/Container/Tests.antt =====
-- A container with object 9 bound to the name "a", which is the list of 97.
use singularity.Common.{
  ℕ, ◌+◌, ◌≡◌, refl, true, false, none, some, arith, ◌==◌, if◌then◌else◌, List, [], ◌∷◌, ◌≢◌, ◌⊎◌,
  update, to_count,
}
use singularity.Kom.Error.{Error, ok, collision}
use singularity.Kom.Object.{Objects, kobject_ref, kobject_unref}
use singularity.Kom.Container.{
  KContainer, same_name, find, remove, bind, unbind, lookup, enumerate, destroy, create_child,
}
use singularity.Kom.Container.Map.{IsMap, bind-find, unbind-find}
use singularity.Kom.Container.References.{
  bound, IsAccounted, bind-IsAccounted, lookup-IsAccounted, unbind-IsAccounted, destroy-IsAccounted,
  create_child-keeps,
}

abbrev a_name : List ℕ
a_name = 97 ∷ []

abbrev b_name : List ℕ
b_name = 98 ∷ []

abbrev objects : Objects
objects = record { ref_count = λ o. if o == 9 then 2 else 0; deleted = λ _. false }

abbrev named : KContainer
named = record { bindings = record { name = a_name; obj = 9 } ∷ []; objects = objects }

-- One reference on object 9 besides the binding's.
abbrev caller : ℕ → ℕ
caller o = if o == 9 then 1 else 0

named-IsMap : IsMap named.bindings
unfolding find
named-IsMap = (refl, omega arith, tt)

named-IsAccounted : IsAccounted caller named.bindings named.objects
unfolding bound
named-IsAccounted = record {
  counted = λ o. ground arith;
  bounded = λ o. ground arith;
  kept = λ o p. refl;
}

named_a : find named.bindings a_name ≡ some 9
unfolding find same_name
named_a = refl

collision_test : bind true named (some a_name) (some 5) ≡ (collision, named)
unfolding bind find same_name
collision_test = refl

enumerate_test : enumerate named 0 ≡ some (a_name, 9)
unfolding enumerate
enumerate_test = refl

abbrev twice : KContainer
twice = record {
  bindings = record { name = b_name; obj = 9 } ∷ named.bindings;
  objects = kobject_ref objects 9;
}

bind_test : bind true named (some b_name) (some 9) ≡ (ok, twice)
unfolding bind find same_name
bind_test = refl

bind-find_test :
    IsMap twice.bindings
    × (find named.bindings b_name ≡ none)
    × ((other : List ℕ)
        → find twice.bindings other
          ≡ (if same_name b_name other then some 9 else find named.bindings other))
bind-find_test = bind-find true named twice b_name 9 named-IsMap bind_test

abbrev emptied : KContainer
emptied = record {
  bindings = [];
  objects = record objects { ref_count = update objects.ref_count 9 1 };
}

unbind_test : unbind named (some a_name) ≡ some (ok, emptied)
unfolding unbind find remove same_name kobject_unref
unbind_test = refl

unbind-find_test :
    IsMap []
    × (find named.bindings a_name ≢ none)
    × ((other : List ℕ)
        → find [] other ≡ (if same_name a_name other then none else find named.bindings other))
unbind-find_test = unbind-find named emptied a_name named-IsMap unbind_test

bind-IsAccounted_test : IsAccounted caller twice.bindings twice.objects
bind-IsAccounted_test =
    bind-IsAccounted caller true named twice b_name 9 named-IsAccounted (omega arith) (omega arith)
      bind_test

lookup-IsAccounted_test :
    let (found, k') = lookup named (some a_name) in
    (found ≡ some 9)
    × (k'.bindings ≡ named.bindings)
    × IsAccounted (λ o. to_count (9 == o) + caller o) k'.bindings k'.objects
lookup-IsAccounted_test =
    lookup-IsAccounted caller named a_name 9 named-IsAccounted (omega arith) named_a

unbind-IsAccounted_test :
    (k' : KContainer) × (unbind named (some a_name) ≡ some (ok, k'))
    × IsAccounted caller k'.bindings k'.objects
unbind-IsAccounted_test = unbind-IsAccounted caller named a_name 9 named-IsAccounted named_a

destroy-IsAccounted_test :
    (s' : Objects) × (destroy named.bindings objects ≡ some s') × IsAccounted caller [] s'
destroy-IsAccounted_test = destroy-IsAccounted caller named.bindings objects named-IsAccounted

create_child-keeps_test :
    (res : Error) × (k' : KContainer) × (create_child true named (some a_name) true (some 30)
      ≡ some (res, k'))
    × (((res ≡ ok)
          × (k'.bindings ≡ record { name = a_name; obj = 30 } ∷ named.bindings)
          × (k'.objects.ref_count 30 ≡ 1)
          × (k'.objects.deleted 30 ≡ false))
        ⊎ ((res ≢ ok)
            × (k'.bindings ≡ named.bindings)
            × (k'.objects.ref_count 30 ≡ 0)
            × (k'.objects.deleted 30 ≡ true)))
create_child-keeps_test = create_child-keeps true named a_name 30
