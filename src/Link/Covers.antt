-- ===== src/Link/Covers.antt =====
-- Every step that the program really takes is one or two of the steps of the system.
use iiw_udp_gbn.Base.{ℕ, true, false, Bool, ◌++◌, if◌then◌else◌}
use iiw_udp_gbn.Launcher.{ring}
use iiw_udp_gbn.Link.{System, handles, delivers, hears, drops, rings, wakes, Reaches, on}
use iiw_udp_gbn.Link.Live.{
  LiveStep, handles_signal, delivers_data, hears_ack, wakes_timer, Runs, stays, runs_on,
}
use iiw_udp_gbn.Timer.{timer_step}

rang-Reaches :
    (port : ℕ) (s t : System) (rang : Bool)
    → Reaches port s t
    → Reaches port s (record t { sender = if rang then ring t.sender else t.sender })
rang-Reaches port s t true r = on r rings
rang-Reaches port s t false r = r

LiveStep-Reaches :
    (port : ℕ) (s t u : System) → Reaches port s t → LiveStep port t u → Reaches port s u
LiveStep-Reaches port s t u r (handles_signal before after event io l ds _ _ _ _ bound run) =
    on (on r (drops (before ++ after))) (handles event io l ds bound run)
LiveStep-Reaches port s t u r (delivers_data m d from c acks at_m more run) =
    on r (delivers m d from c acks at_m more run)
LiveStep-Reaches port s t u r (hears_ack m a bytes now l _ at_m written run) =
    on r (hears m a bytes now l at_m written run)
LiveStep-Reaches port s t u r (wakes_timer alive) =
    rang-Reaches port s _ (timer_step t.sender.timer).1 (on r wakes)

-- A state that is run to is reached.
pub Runs-Reaches : (port : ℕ) (s t u : System) → Reaches port s t → Runs port t u → Reaches port s u
Runs-Reaches port s t u r stays = r
Runs-Reaches port s t u r (runs_on {t = w} runs step) =
    LiveStep-Reaches port s w u (Runs-Reaches port s t w r runs) step
