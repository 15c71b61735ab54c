-- ===== src/Mpc/Joint/Sessions.antt =====
-- The allocation, a flush and a commit of both parties' record layers.
use tlsn.Common.{
  ℕ, ◌≡◌, refl, sym, ap, ap₂, ◌∙◌, List, ◌++◌, Bool, inl, inr, Result-cases, ok, err, map,
}
use tlsn.Transcript.{Record}
use tlsn.Mpc.Ops.{Role, Vm}
use tlsn.Mpc.Layer.{RecordLayer, AllocOutcome, new, alloc, allocated}
use tlsn.Mpc.Flush.{flush, drained}
use tlsn.Mpc.Flush.Marks.{sent_mark, recv_mark, encrypt_mark, decrypt_mark}
use tlsn.Mpc.Flush.Done.{flush-FlushedOk}
use tlsn.Mpc.Commit.{commit}
use tlsn.Mpc.Commit.Marks.{commit-CommittedOk}
use tlsn.Mpc.Joint.{Mirrors}

-- Both machines may answer as they like, if both flushes succeed.
pub flush-Mirrors :
    (v w : Vm) (is_decrypting : Bool) (l f : RecordLayer)
    → Mirrors l f
    → (flush v is_decrypting l).0 ≡ ok tt
    → (flush w is_decrypting f).0 ≡ ok tt
    → Mirrors (flush v is_decrypting l).1 (flush w is_decrypting f).1
flush-Mirrors v w is_decrypting l f mirrors h k =
    let a = flush-FlushedOk v is_decrypting l h in
    let b = flush-FlushedOk w is_decrypting f k in
    record {
      write_seq =
          ap (λ (x : RecordLayer). x.write_seq) a.kept
          ∙ mirrors.write_seq
          ∙ ap (λ (x : RecordLayer). x.write_seq) (sym b.kept);
      read_seq =
          ap (λ (x : RecordLayer). x.read_seq) a.kept
          ∙ mirrors.read_seq
          ∙ ap (λ (x : RecordLayer). x.read_seq) (sym b.kept);
      encrypts =
          ap (λ (x : RecordLayer). map encrypt_mark x.encrypt_buffer) (a.kept)
          ∙ ap (λ (x : RecordLayer). map encrypt_mark x.encrypt_buffer) (sym b.kept);
      decrypts =
          ap (λ (x : RecordLayer). x.decrypt_buffer) a.kept
          ∙ ap (λ x. (drained is_decrypting x).1) mirrors.decrypts
          ∙ ap (λ (x : RecordLayer). x.decrypt_buffer) (sym b.kept);
      sent =
          a.marked.sent_marks
          ∙ ap₂ (λ x y. x ++ y) mirrors.sent mirrors.encrypts
          ∙ sym b.marked.sent_marks;
      recv =
          a.marked.recv_marks
          ∙ ap₂ (λ x y. x ++ map decrypt_mark (drained is_decrypting y).0) mirrors.recv
              mirrors.decrypts
          ∙ sym b.marked.recv_marks;
    }

-- The records that both parties return agree.
pub record SameMarks (t u : List Record × List Record) : Type 0 where
  pub sent : map sent_mark t.0 ≡ map sent_mark u.0
  pub recv : map recv_mark t.1 ≡ map recv_mark u.1

pub commit-SameMarks :
    (v w : Vm) (l f : RecordLayer) (t u : List Record × List Record)
    → Mirrors l f
    → (commit v l).0 ≡ ok t
    → (commit w f).0 ≡ ok u
    → SameMarks t u
commit-SameMarks v w l f t u mirrors h k =
    let a = commit-CommittedOk v l t h in
    let b = commit-CommittedOk w f u k in
    record {
      sent = ap (map sent_mark) a.sent_same ∙ mirrors.sent ∙ ap (map sent_mark) (sym b.sent_same);
      recv =
          a.recv_marks
          ∙ ap₂ (λ x y. x ++ map decrypt_mark y) mirrors.recv mirrors.decrypts
          ∙ sym b.recv_marks;
    }

-- Two new record layers, whatever their sizes, behind their allocation.
alloc_fresh :
    (out : AllocOutcome) (role : Role) (a b c : ℕ)
    → (alloc out a b c (new role)).0 ≡ ok tt
    → Mirrors (alloc out a b c (new role)).1 (new Role.leader)
unfolding alloc allocated
alloc_fresh out role a b c h = elim (Result-cases out.allocated) [
  | inl (u, q) ↦ rw q (record {
    write_seq = refl;
    read_seq = refl;
    encrypts = refl;
    decrypts = refl;
    sent = refl;
    recv = refl;
  })
  | inr (stop, q) ↦ absurd (let no : err stop ≡ ok tt = rw q at h in cc)
]

Mirrors-sym : (a b : RecordLayer) → Mirrors a b → Mirrors b a
Mirrors-sym a b m = record {
  write_seq = sym m.write_seq;
  read_seq = sym m.read_seq;
  encrypts = sym m.encrypts;
  decrypts = sym m.decrypts;
  sent = sym m.sent;
  recv = sym m.recv;
}

Mirrors-trans : (a b c : RecordLayer) → Mirrors a b → Mirrors b c → Mirrors a c
Mirrors-trans a b c m n = record {
  write_seq = m.write_seq ∙ n.write_seq;
  read_seq = m.read_seq ∙ n.read_seq;
  encrypts = m.encrypts ∙ n.encrypts;
  decrypts = m.decrypts ∙ n.decrypts;
  sent = m.sent ∙ n.sent;
  recv = m.recv ∙ n.recv;
}

pub alloc-Mirrors :
    (o p : AllocOutcome) (r s : Role) (a b c x y z : ℕ)
    → (alloc o a b c (new r)).0 ≡ ok tt
    → (alloc p x y z (new s)).0 ≡ ok tt
    → Mirrors (alloc o a b c (new r)).1 (alloc p x y z (new s)).1
alloc-Mirrors o p r s a b c x y z h k =
    Mirrors-trans _ _ _ (alloc_fresh o r a b c h) (Mirrors-sym _ _ (alloc_fresh p s x y z k))
