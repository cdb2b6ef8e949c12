-- ===== src/Fec/Manager/Word.antt =====
-- internal/fec/fec.go: the buffered packets of a group against the encoded word that they are
-- parts of.
use mathlib.Core.Path.{subst}
use multicast_bridge.Common.{
  ℕ, zero, suc, ◌≤◌, ◌≡◌, refl, sym, ap, ◌∙◌, inl, inr, if◌then◌else◌, ltb, Bool, true, false, List,
  [], ◌∷◌, length, replicate, get_elem?, set, some, arith, map, length-replicate,
}
use multicast_bridge.Common.Bytes.{make, copy_at-make, length-copy_at}
use multicast_bridge.Fec.Codec.{present, PartOf, AllOfLength}
use multicast_bridge.Fec.Encode.{pad}
use multicast_bridge.Fec.Manager.Group.{pad_received, collect_unsent}
use multicast_bridge.Fec.Manager.Slots.{count_true}

-- A packet that, padded to `l` bytes, is the shard `w`.
pub record IsShard (l : ℕ) (p w : List ℕ) : Type 0 where
  pub padded : pad l p ≡ w
  pub fits : length p ≤ l
  pub some_bytes : 1 ≤ length p

abbrev FitsAt : ℕ → List ℕ → Bool → List ℕ → Type 0
FitsAt l w true p = IsShard l p w
FitsAt l w false p = p ≡ []

-- Place by place: a received packet is a shard of the word, and nothing else is held.
abbrev pub Fits : ℕ → List (List ℕ) → List Bool → List (List ℕ) → Type 0
Fits l [] [] [] = Unit
Fits l (w ∷ ws) (r ∷ rs) (p ∷ ps) = FitsAt l w r p × Fits l ws rs ps
Fits l _ _ _ = ⊥

pub length-pad : (l : ℕ) (p : List ℕ) → length (pad l p) ≡ l
length-pad l p = length-copy_at (make l) 0 p ∙ length-replicate l 0

pub pad_full : (l : ℕ) (p : List ℕ) → length p ≡ l → pad l p ≡ p
pad_full l p e = ap (λ n. pad n p) (sym e) ∙ copy_at-make p

pub Fits-replicate :
    (l n : ℕ) (ws : List (List ℕ)) → length ws ≡ n → Fits l ws (replicate n false) (replicate n [])
Fits-replicate l zero [] e = tt
Fits-replicate l zero (w ∷ ws) e = absurd (omega arith)
Fits-replicate l (suc n) [] e = absurd (omega arith)
Fits-replicate l (suc n) (w ∷ ws) e = (refl, Fits-replicate l n ws (omega arith))

pub Fits-length :
    (l : ℕ) (ws : List (List ℕ)) (rs : List Bool) (ps : List (List ℕ))
    → Fits l ws rs ps
    → length rs ≡ length ws
Fits-length l [] [] [] f = refl
Fits-length l (w ∷ ws) (r ∷ rs) (p ∷ ps) f = ap suc (Fits-length l ws rs ps f.1)
Fits-length l [] [] (p ∷ ps) f = absurd f
Fits-length l [] (r ∷ rs) ps f = absurd f
Fits-length l (w ∷ ws) [] ps f = absurd f
Fits-length l (w ∷ ws) (r ∷ rs) [] f = absurd f

pub Fits-set :
    (l : ℕ) (ws : List (List ℕ)) (rs : List Bool) (ps : List (List ℕ)) (i : ℕ) (p w : List ℕ)
    → Fits l ws rs ps
    → get_elem? ws i ≡ some w
    → IsShard l p w
    → Fits l ws (set rs i true) (set ps i p)
Fits-set l [] rs ps i p w f e s = cc
Fits-set l (x ∷ ws) [] ps i p w f e s = absurd f
Fits-set l (x ∷ ws) (r ∷ rs) [] i p w f e s = absurd f
Fits-set l (x ∷ ws) (r ∷ rs) (q ∷ ps) zero p w f e s =
    let e' : w ≡ x = cc in (subst (IsShard l p) e' s, f.1)
Fits-set l (x ∷ ws) (r ∷ rs) (q ∷ ps) (suc i) p w f e s = (f.0, Fits-set l ws rs ps i p w f.1 e s)

-- What the padding loop makes of a received packet is the shard itself.
pad_short : (l : ℕ) (p w : List ℕ) → IsShard l p w → (if ltb (length p) l then pad l p else p) ≡ w
pad_short l p w s = ground (arith, s.padded, pad_full l p)

present-cons :
    (s : List ℕ) (ss : List (List ℕ)) → 1 ≤ length s → present (s ∷ ss) ≡ suc (present ss)
present-cons [] ss h = elim h [ ]
present-cons (b ∷ bs) ss h = refl

length-shard : (l : ℕ) (p w : List ℕ) → IsShard l p w → length w ≡ l
length-shard l p w s = ap length (sym s.padded) ∙ length-pad l p

pub pad_received-PartOf :
    (l : ℕ) (ws : List (List ℕ)) (rs : List Bool) (ps : List (List ℕ))
    → Fits l ws rs ps
    → PartOf (pad_received l rs ps) ws
unfolding pad_received
pad_received-PartOf l [] [] [] f = tt
pad_received-PartOf l (w ∷ ws) (true ∷ rs) (p ∷ ps) f =
    (inr (pad_short l p w f.0), pad_received-PartOf l ws rs ps f.1)
pad_received-PartOf l (w ∷ ws) (false ∷ rs) (p ∷ ps) f =
    (inl f.0, pad_received-PartOf l ws rs ps f.1)
pad_received-PartOf l [] [] (p ∷ ps) f = absurd f
pad_received-PartOf l [] (r ∷ rs) ps f = absurd f
pad_received-PartOf l (w ∷ ws) [] ps f = absurd f
pad_received-PartOf l (w ∷ ws) (r ∷ rs) [] f = absurd f

pub present-pad_received :
    (l : ℕ) (ws : List (List ℕ)) (rs : List Bool) (ps : List (List ℕ))
    → 1 ≤ l
    → Fits l ws rs ps
    → present (pad_received l rs ps) ≡ count_true rs
unfolding pad_received
present-pad_received l [] [] [] h f = refl
present-pad_received l (w ∷ ws) (true ∷ rs) (p ∷ ps) h f =
    present-cons (if ltb (length p) l then pad l p else p) (pad_received l rs ps)
      (omega (arith, ap length (pad_short l p w f.0), length-shard l p w f.0))
    ∙ ap suc (present-pad_received l ws rs ps h f.1)
present-pad_received l (w ∷ ws) (false ∷ rs) (p ∷ ps) h f =
    ap (λ q. present (q ∷ pad_received l rs ps)) f.0 ∙ present-pad_received l ws rs ps h f.1
present-pad_received l [] [] (p ∷ ps) h f = absurd f
present-pad_received l [] (r ∷ rs) ps h f = absurd f
present-pad_received l (w ∷ ws) [] ps h f = absurd f
present-pad_received l (w ∷ ws) (r ∷ rs) [] h f = absurd f

-- The shards have their full length: padding leaves them alone.
pub map-pad-collect_unsent :
    (l : ℕ) (bs : List Bool) (ws : List (List ℕ))
    → AllOfLength l ws
    → map (pad l) (collect_unsent bs ws) ≡ collect_unsent bs ws
unfolding collect_unsent
map-pad-collect_unsent l [] ws h = refl
map-pad-collect_unsent l (b ∷ bs) [] h = refl
map-pad-collect_unsent l (true ∷ bs) (w ∷ ws) h = map-pad-collect_unsent l bs ws h.1
map-pad-collect_unsent l (false ∷ bs) (w ∷ ws) h =
    λ i. pad_full l w h.0 i ∷ map-pad-collect_unsent l bs ws h.1 i
