-- ===== src/Factories.antt =====
-- src/aio/factory_tcp.cpp and src/aio/factory_tcp_bandwidth.cpp: the sockets that a downloader gets, a null
-- pointer being `none`. `made` tells whether the loop makes a handle.
mod Tests
use ecwid_console_downloader.Base.{
  ℕ, ◌*◌, ◌≡◌, refl, ◌∙◌, ap, Bool, true, false, not, ◌&&◌, Option, none, some, List, [], codes,
  if◌then◌else◌, mul_size, Bool-cases, inl, inr,
}
use ecwid_console_downloader.Jobs
use ecwid_console_downloader.Socket
use ecwid_console_downloader.TcpSimple
use ecwid_console_downloader.Http.{same_text}
use ecwid_console_downloader.Http.Uri.{UriParseResult}
use ecwid_console_downloader.Downloader.State.{Downloader, Failure, construct}
use ecwid_console_downloader.Downloader.Net.{Resources, run, is_given}
use ecwid_console_downloader.Downloader.Start.{can_run, run-decides}

-- `FactoryTCPSocket::tcp` and `tcp_tls`.
pub tcp : Bool → Option TcpSimple.TcpSimple
tcp made = if made then some TcpSimple.create else none

pub tcp_tls : Option TcpSimple.TcpSimple
tcp_tls = none

-- `TCPSocketBandwidth::create` over a socket; the controller gives it a buffer of four times the limit.
pub shaped : ℕ → Option TcpSimple.TcpSimple → Option Socket.Socket
shaped limit none = none
shaped limit (some inner) = some (Socket.create (mul_size limit 4))

-- `tcp` and `tcp_tls` of `FactoryTCPSocketBandwidth`.
pub shaped_tcp : ℕ → Bool → Option Socket.Socket
shaped_tcp limit made = shaped limit (tcp made)

pub shaped_tls : ℕ → Option Socket.Socket
shaped_tls limit = shaped limit tcp_tls

-- What a downloader gets from this factory, and from a loop that makes these handles.
pub resources : ℕ → Bool → Bool → Bool → Resources
resources limit made timer resolver = record {
  tcp = is_given (shaped_tcp limit made);
  tcp_tls = is_given (shaped_tls limit);
  timer = timer;
  resolver = resolver;
}

made-given : (limit : ℕ) (made : Bool) → is_given (shaped_tcp limit made) ≡ made
unfolding shaped_tcp shaped tcp
made-given limit true = refl
made-given limit false = refl

can_run-resources :
    (limit : ℕ) (made timer resolver : Bool) (fails : Option Failure) (uri : UriParseResult)
    → can_run (resources limit made timer resolver) fails (some uri) ≡ (
        not (same_text uri.proto (codes "https"))
        && (made && (timer && (resolver && not (is_given fails)))))
unfolding can_run resources shaped_tls shaped tcp_tls
can_run-resources limit made timer resolver fails uri =
    elim (Bool-cases (same_text uri.proto (codes "https"))) [
      | inl secure ↦ simp secure refl
      | inr plain ↦ simp (plain, made-given limit made) refl
    ]

-- With the sockets of `FactoryTCPSocketBandwidth`, the `run` of a new downloader returns true exactly if the
-- scheme of its URI is not https, the loop makes the three handles and the resolver does not fail at once:
-- a download over https fails before it begins.
pub run-plain :
    (P : Type 0) (limit : ℕ) (made timer resolver : Bool) (fails : Option Failure)
    (uri : UriParseResult) (name : List ℕ) (backlog : ℕ)
    → let outcome =
        run {P = P}
          (resources limit made timer resolver)
          fails
          (some uri)
          name
          (construct backlog) in
      outcome.0 ≡ (
        not (same_text uri.proto (codes "https"))
        && (made && (timer && (resolver && not (is_given fails)))))
run-plain P limit made timer resolver fails uri name backlog =
    let (decision, _, _) =
      run-decides P (resources limit made timer resolver) fails (some uri) name backlog in
    decision ∙ can_run-resources limit made timer resolver fails uri
