-- ===== src/Network/Counting.antt =====
-- For internal/networkpolicy/change_machine.go: counting the ids of passed probes against a plan.
use control_center_developme.Prelude.{
  suc, ◌≤◌, String, ◌≡◌, inl, inr, true, false, arith, List, [], ◌∷◌, length, ◌=s◌, =s_iff,
  if◌then◌else◌, Bool-cases, All, All-map_pointwise,
}
use control_center_developme.Network.Plan.{ConnectivityProbe}
use control_center_developme.Network.Machine.{contains, has_probe}
use control_center_developme.Network.Invariant.{Distinct}

abbrev Known : List ConnectivityProbe → List String → Type 0
Known probes ids = All (λ id. has_probe id probes ≡ true) ids

erase : String → List String → List String
erase id [] = []
erase id (j ∷ js) = if j =s id then js else j ∷ erase id js

contains-erase :
    (k id : String) (js : List String) → contains k (erase id js) ≡ true → contains k js ≡ true
unfolding contains erase
contains-erase k id [] h = h
contains-erase k id (j ∷ js) h = ground (arith, contains-erase k id js)

not-contains-erase :
    (k id : String) (js : List String) → contains k js ≡ false → contains k (erase id js) ≡ false
unfolding contains erase
not-contains-erase k id [] h = h
not-contains-erase k id (j ∷ js) h = ground (arith, not-contains-erase k id js)

Distinct-erase : (id : String) (js : List String) → Distinct js → Distinct (erase id js)
unfolding erase
Distinct-erase id [] d = tt
Distinct-erase id (j ∷ js) d = elim (Bool-cases (j =s id)) [
  | inl e ↦ rw e d.1
  | inr e ↦ rw e (not-contains-erase j id js d.0, Distinct-erase id js d.1)
]

length-erase :
    (id : String) (js : List String)
    → contains id js ≡ true
    → length js ≡ suc (length (erase id js))
unfolding contains erase
length-erase id [] h = absurd (cc)
length-erase id (j ∷ js) h = ground (arith, length-erase id js)

Known-absent :
    (p : ConnectivityProbe) (ps : List ConnectivityProbe) (js : List String)
    → contains p.id js ≡ false
    → Known (p ∷ ps) js
    → Known ps js
unfolding contains has_probe
Known-absent p ps [] h k = tt
Known-absent p ps (j ∷ js) h k =
    (ground (arith, =s_iff p.id j, =s_iff j p.id, k.0), Known-absent p ps js (ground arith) k.1)

Known-erase :
    (p : ConnectivityProbe) (ps : List ConnectivityProbe) (js : List String)
    → Distinct js
    → Known (p ∷ ps) js
    → Known ps (erase p.id js)
unfolding erase
Known-erase p ps [] d k = tt
Known-erase p ps (j ∷ js) d k = elim (Bool-cases (j =s p.id)) [
  | inl e ↦ rw e (Known-absent p ps js (rw ((=s_iff j p.id).0 e) at (d.0)) k.1)
  | inr e ↦ rw e (
    unfold has_probe in ground (arith, =s_iff p.id j, =s_iff j p.id, k.0),
    Known-erase p ps js d.1 k.1,
  )
]

pub length-le-length :
    (ps : List ConnectivityProbe) (js : List String)
    → Distinct js
    → Known ps js
    → length js ≤ length ps
length-le-length [] [] d k = omega arith
length-le-length [] (j ∷ js) d k = absurd (unfold has_probe in cc (k.0))
length-le-length (p ∷ ps) js d k = elim (Bool-cases (contains p.id js)) [
  | inl e ↦ omega (
    arith,
    length-erase p.id js e,
    length-le-length ps (erase p.id js) (Distinct-erase p.id js d) (Known-erase p ps js d k),
  )
  | inr e ↦ omega (arith, length-le-length ps js d (Known-absent p ps js e k))
]

-- Distinct ids of probes, as many as there are probes, are the ids of all probes.
pub all_contained :
    (ps : List ConnectivityProbe) (js : List String)
    → Distinct js
    → Known ps js
    → length js ≡ length ps
    → All (λ (p : ConnectivityProbe). contains p.id js ≡ true) ps
all_contained [] js d k e = tt
all_contained (p ∷ ps) js d k e = elim (Bool-cases (contains p.id js)) [
  | inl c ↦ (
    c,
    All-map_pointwise ps (λ q. contains-erase q.id p.id js)
        (all_contained ps (erase p.id js) (Distinct-erase p.id js d) (Known-erase p ps js d k)
          (omega (arith, length-erase p.id js c))),
  )
  | inr c ↦ absurd (omega (arith, length-le-length ps js d (Known-absent p ps js c k)))
]
