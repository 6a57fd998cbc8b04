-- ===== src/Message.antt =====
-- The parts of a DNS message (github.com/miekg/dns) that internal/dnsengine reads and writes. A
-- record list holds no nil record.
use phantomcore.Base.{ℕ, Bool, List, Text}

pub data RecordData : Type 0 where
  a aaaa : List ℕ → RecordData
  cname : Text → RecordData
  other : Text → RecordData

-- dns.RR: the header's owner name and TTL, and the data.
pub record Rr : Type 0 where
  pub name : Text
  pub ttl : ℕ
  pub rdata : RecordData

-- dns.Question
pub record Question : Type 0 where
  pub name : Text
  pub qtype : ℕ
  pub qclass : ℕ

-- dns.Msg
pub record Msg : Type 0 where
  pub id : ℕ
  pub response : Bool
  pub rcode : ℕ
  pub question : List Question
  pub answer : List Rr
  pub ns : List Rr
  pub extra : List Rr

abbrev pub type_a : ℕ
type_a = 1

abbrev pub type_aaaa : ℕ
type_aaaa = 28

abbrev pub rcode_success : ℕ
rcode_success = 0

abbrev pub rcode_server_failure : ℕ
rcode_server_failure = 2

abbrev pub rcode_refused : ℕ
rcode_refused = 5
