-- ===== src/ClientIp/Forged.antt =====
-- What a client can do to its address with headers of its own.
use Prim.Native.Char.{Char, code}
use Prim.Native.String.{◌++◌ as append}
use Prim.Native.String.append as Append
use cubesync.Prelude.{
  ℕ, ◌≡◌, ◌≢◌, refl, sym, ap, ◌∙◌, String, Bool, true, false, Option, none, some, List, [], ◌∷◌,
  ◌++◌, ◌==◌, if◌then◌else◌, str_eq, eq_iff, Bool-cases, inl, inr,
}
use cubesync.ClientIp.{
  Net, prepend_char, split_commas, from_right, is_trusted_proxy, hop, walk, of_peer, host_or,
  client_ip,
}

abbrev comma : Char
comma = ","

append-comma : (t : String) → append "," t ≡ String.◌∷◌ comma t
append-comma t = simp (Append.cons comma "" t, Append.nil t)

split_commas-some : (s : String) → (p : String) × (ps : List String) × (split_commas s ≡ p ∷ ps)
split_commas-some String.[] = ("", [], refl)
split_commas-some (String.◌∷◌ c s) = by_test (code c == 44) (split_commas-some s)
  where
    by_test :
        (b : Bool)
        → (p : String) × (ps : List String) × (split_commas s ≡ p ∷ ps)
        → (p : String) × (ps : List String) × ((if b
              then "" ∷ split_commas s
              else prepend_char c (split_commas s))
            ≡ p ∷ ps)
    by_test true h = ("", split_commas s, refl)
    by_test false h = (String.◌∷◌ c h.0, h.1, ap (prepend_char c) h.2)

split_commas-append :
    (s t : String) → split_commas (append s (append "," t)) ≡ split_commas s ++ split_commas t
split_commas-append String.[] t = simp (append-comma t, Append.nil (String.◌∷◌ comma t))
split_commas-append (String.◌∷◌ c s) t =
    let h = split_commas-some s in
    simp (Append.cons c s (append "," t), split_commas-append s t)
      (by_test (code c == 44) h.0 h.1 h.2)
  where
    by_test :
        (b : Bool) (p : String) (ps : List String)
        → split_commas s ≡ p ∷ ps
        → (if b
            then "" ∷ (split_commas s ++ split_commas t)
            else prepend_char c (split_commas s ++ split_commas t))
          ≡ (if b then "" ∷ split_commas s else prepend_char c (split_commas s)) ++ split_commas t
    by_test true p ps e = refl
    by_test false p ps e = rw e refl

abbrev rest_of : List String → List String
rest_of [] = []
rest_of (p ∷ ps) = ps

two_parts : (ps : List String) (q : String) (qs : List String) → ps ++ q ∷ qs ≢ []
two_parts [] q qs e = absurd (cc e)
two_parts (p ∷ ps) q qs e = absurd (cc e)

not_empty : (s t : String) → str_eq (append s (append "," t)) "" ≡ false
not_empty s t = elim (Bool-cases (str_eq (append s (append "," t)) "")) [
  | inl e ↦
      let (p, ps, front) = split_commas-some s in
      let (q, qs, back) = split_commas-some t in
      let same : (p ∷ ps) ++ q ∷ qs ≡ "" ∷ [] =
        ap (λ l. l ++ q ∷ qs) (sym front)
        ∙ ap (λ l. split_commas s ++ l) (sym back)
        ∙ sym (split_commas-append s t)
        ∙ ap split_commas ((eq_iff (append s (append "," t)) "").0 e) in
      absurd (two_parts ps q qs (ap rest_of same))
  | inr e ↦ e
]

append_assoc : {A : Type 0} (xs ys zs : List A) → (xs ++ ys) ++ zs ≡ xs ++ (ys ++ zs)
append_assoc [] ys zs = refl
append_assoc (x ∷ xs) ys zs = ap (x ∷◌) (append_assoc xs ys zs)

append_nil : {A : Type 0} (xs : List A) → xs ++ [] ≡ xs
append_nil [] = refl
append_nil (x ∷ xs) = ap (x ∷◌) (append_nil xs)

from_right-append : (xs ys : List String) → from_right (xs ++ ys) ≡ from_right ys ++ from_right xs
from_right-append [] ys = sym (append_nil (from_right ys))
from_right-append (x ∷ xs) ys =
    ap (λ l. l ++ x ∷ []) (from_right-append xs ys)
    ∙ append_assoc (from_right ys) (from_right xs) (x ∷ [])

module _ (net : Net) (trusted : List ℕ) where
  walk-append :
      (xs ys : List String) (t : String)
      → walk net trusted xs ≡ some t
      → walk net trusted (xs ++ ys) ≡ some t
  unfolding walk
  walk-append [] ys t e = absurd (cc e)
  walk-append (x ∷ xs) ys t e =
      hop_first (net.parse_addr (net.trim_space x)) (walk net trusted xs)
        (walk net trusted (xs ++ ys)) e (walk-append xs ys t)
    where
      by_trust :
          (b : Bool) (text : String) (near far : Option String)
          → (if b then near else some text) ≡ some t
          → (near ≡ some t → far ≡ some t)
          → (if b then far else some text) ≡ some t
      by_trust true text near far e' later = later e'
      by_trust false text near far e' later = e'

      hop_first :
          (o : Option ℕ) (near far : Option String)
          → hop net trusted o near ≡ some t
          → (near ≡ some t → far ≡ some t)
          → hop net trusted o far ≡ some t
      hop_first none near far e' later = absurd (cc e')
      hop_first (some a) near far e' later =
          by_trust (is_trusted_proxy net trusted (net.unmap a)) (net.addr_text (net.unmap a)) near
            far e' later

  walk-forged :
      (forged appended client : String)
      → walk net trusted (from_right (split_commas appended)) ≡ some client
      → walk net trusted (from_right (split_commas (append forged (append "," appended))))
        ≡ some client
  walk-forged forged appended client named =
      ap (λ l. walk net trusted (from_right l)) (split_commas-append forged appended)
      ∙ ap (walk net trusted) (from_right-append (split_commas forged) (split_commas appended))
      ∙ walk-append (from_right (split_commas appended)) (from_right (split_commas forged)) client
          named

  -- Where the hops at the end of X-Forwarded-For name an untrusted client, and the peer is a trusted
  -- proxy, the address of the request is that client's, whatever stands before them in the header.
  -- Where the peer is no trusted proxy, the address is the peer's. The peer's address can be read.
  pub client_ip-forged :
      (forged appended real_ip remote : String) (peer : ℕ) (client : String)
      → net.parse_addr (host_or net trusted remote (net.split_host_port remote)) ≡ some peer
      → walk net trusted (from_right (split_commas appended)) ≡ some client
      → client_ip net trusted (record {
        remote_addr = remote;
        x_forwarded_for = append forged (append "," appended);
        x_real_ip = real_ip;
      })
        ≡ (if is_trusted_proxy net trusted (net.unmap peer)
            then client
            else net.addr_text (net.unmap peer))
  unfolding client_ip of_peer
  client_ip-forged forged appended real remote peer client parsed named =
      simp (parsed, not_empty forged appended, walk-forged forged appended client named)
