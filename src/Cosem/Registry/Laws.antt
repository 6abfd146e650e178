-- ===== src/Cosem/Registry/Laws.antt =====
-- What all the classes of include/dlms/cosem have in common: they are stores of typed attributes.
use dlms_cosem_cpp.Base.{ℕ, ◌≡◌, ◌≢◌, List, [], ◌∷◌, map}
use dlms_cosem_cpp.Axdr.Value.{DlmsValue}
use dlms_cosem_cpp.Cosem.Object.Store.{IsAttributeStore, answer, cell_of}
use dlms_cosem_cpp.Cosem.Object.Requests.{
  requests, answers_to, reads_after_all, requests-read, requests-answered, requests_commute,
}
use dlms_cosem_cpp.Cosem.Registry.{
  ClassName, State, class_of, cells_of, unread_of, data_object, register, extended_register,
  demand_register, maximum_demand, profile_generic, register_monitor, clock, clock_control,
  activity_calendar, special_days_table, tariff_plan, tariff_table, serial_port, infrared_setup,
  rs485_setup, lp_setup, mbus_client, mbus_master, gprs_modem_setup, auto_connect, lorawan_setup,
  nbiot_setup, wisun_setup, ipv4_setup, mac_address_setup, ntp_setup, smtp_setup, route, push_setup,
  association_ln, security_setup, direct_disconnect, sensor_manager, ups, limiter, image_transfer,
  disconnect_control,
}
use dlms_cosem_cpp.Cosem.Metering.Data.{class-IsAttributeStore as data-IsAttributeStore}
use dlms_cosem_cpp.Cosem.Metering.Register.{class-IsAttributeStore as register-IsAttributeStore}
use dlms_cosem_cpp.Cosem.Metering.ExtendedRegister.{
  class-IsAttributeStore as extended_register-IsAttributeStore,
}
use dlms_cosem_cpp.Cosem.Metering.DemandRegister.{
  class-IsAttributeStore as demand_register-IsAttributeStore,
}
use dlms_cosem_cpp.Cosem.Metering.MaximumDemand.{
  class-IsAttributeStore as maximum_demand-IsAttributeStore,
}
use dlms_cosem_cpp.Cosem.Metering.ProfileGeneric.{
  class-IsAttributeStore as profile_generic-IsAttributeStore,
}
use dlms_cosem_cpp.Cosem.Metering.RegisterMonitor.{
  class-IsAttributeStore as register_monitor-IsAttributeStore,
}
use dlms_cosem_cpp.Cosem.Schedule.Clock.{class-IsAttributeStore as clock-IsAttributeStore}
use dlms_cosem_cpp.Cosem.Schedule.ClockControl.{
  class-IsAttributeStore as clock_control-IsAttributeStore,
}
use dlms_cosem_cpp.Cosem.Schedule.ActivityCalendar.{
  class-IsAttributeStore as activity_calendar-IsAttributeStore,
}
use dlms_cosem_cpp.Cosem.Schedule.SpecialDaysTable.{
  class-IsAttributeStore as special_days_table-IsAttributeStore,
}
use dlms_cosem_cpp.Cosem.Schedule.TariffPlan.{
  class-IsAttributeStore as tariff_plan-IsAttributeStore,
}
use dlms_cosem_cpp.Cosem.Schedule.TariffTable.{
  class-IsAttributeStore as tariff_table-IsAttributeStore,
}
use dlms_cosem_cpp.Cosem.Link.SerialPort.{class-IsAttributeStore as serial_port-IsAttributeStore}
use dlms_cosem_cpp.Cosem.Link.InfraredSetup.{
  class-IsAttributeStore as infrared_setup-IsAttributeStore,
}
use dlms_cosem_cpp.Cosem.Link.Rs485Setup.{class-IsAttributeStore as rs485_setup-IsAttributeStore}
use dlms_cosem_cpp.Cosem.Link.LpSetup.{class-IsAttributeStore as lp_setup-IsAttributeStore}
use dlms_cosem_cpp.Cosem.Link.MbusClient.{class-IsAttributeStore as mbus_client-IsAttributeStore}
use dlms_cosem_cpp.Cosem.Link.MbusMaster.{class-IsAttributeStore as mbus_master-IsAttributeStore}
use dlms_cosem_cpp.Cosem.Link.GprsModemSetup.{
  class-IsAttributeStore as gprs_modem_setup-IsAttributeStore,
}
use dlms_cosem_cpp.Cosem.Link.AutoConnect.{class-IsAttributeStore as auto_connect-IsAttributeStore}
use dlms_cosem_cpp.Cosem.Link.LorawanSetup.{
  class-IsAttributeStore as lorawan_setup-IsAttributeStore,
}
use dlms_cosem_cpp.Cosem.Link.NbiotSetup.{class-IsAttributeStore as nbiot_setup-IsAttributeStore}
use dlms_cosem_cpp.Cosem.Link.WisunSetup.{class-IsAttributeStore as wisun_setup-IsAttributeStore}
use dlms_cosem_cpp.Cosem.Network.Ipv4Setup.{class-IsAttributeStore as ipv4_setup-IsAttributeStore}
use dlms_cosem_cpp.Cosem.Network.MacAddressSetup.{
  class-IsAttributeStore as mac_address_setup-IsAttributeStore,
}
use dlms_cosem_cpp.Cosem.Network.NtpSetup.{class-IsAttributeStore as ntp_setup-IsAttributeStore}
use dlms_cosem_cpp.Cosem.Network.SmtpSetup.{class-IsAttributeStore as smtp_setup-IsAttributeStore}
use dlms_cosem_cpp.Cosem.Network.Route.{class-IsAttributeStore as route-IsAttributeStore}
use dlms_cosem_cpp.Cosem.Network.PushSetup.{class-IsAttributeStore as push_setup-IsAttributeStore}
use dlms_cosem_cpp.Cosem.Device.AssociationLn.{
  class-IsAttributeStore as association_ln-IsAttributeStore,
}
use dlms_cosem_cpp.Cosem.Device.SecuritySetup.{
  class-IsAttributeStore as security_setup-IsAttributeStore,
}
use dlms_cosem_cpp.Cosem.Device.DirectDisconnect.{
  class-IsAttributeStore as direct_disconnect-IsAttributeStore,
}
use dlms_cosem_cpp.Cosem.Device.SensorManager.{
  class-IsAttributeStore as sensor_manager-IsAttributeStore,
}
use dlms_cosem_cpp.Cosem.Device.Ups.{class-IsAttributeStore as ups-IsAttributeStore}
use dlms_cosem_cpp.Cosem.Limiter.Class.{class-IsAttributeStore as limiter-IsAttributeStore}
use dlms_cosem_cpp.Cosem.ImageTransfer.Class.{
  class-IsAttributeStore as image_transfer-IsAttributeStore,
}
use dlms_cosem_cpp.Cosem.DisconnectControl.Class.{
  class-IsAttributeStore as disconnect_control-IsAttributeStore,
}

-- Every class is a store of attributes, with the table of cells of its code: a set request is
-- answered as the table says, changes what is read under its own number as the cell says and under no
-- other number, renaming the object changes attribute 1 alone, and an attribute can be read exactly
-- when the class lists it and it is none of those listed in vain.
pub class_of-IsAttributeStore :
    (k : ClassName) → IsAttributeStore (class_of k) (cells_of k) (unread_of k)
class_of-IsAttributeStore data_object = data-IsAttributeStore
class_of-IsAttributeStore register = register-IsAttributeStore
class_of-IsAttributeStore extended_register = extended_register-IsAttributeStore
class_of-IsAttributeStore demand_register = demand_register-IsAttributeStore
class_of-IsAttributeStore maximum_demand = maximum_demand-IsAttributeStore
class_of-IsAttributeStore profile_generic = profile_generic-IsAttributeStore
class_of-IsAttributeStore register_monitor = register_monitor-IsAttributeStore
class_of-IsAttributeStore clock = clock-IsAttributeStore
class_of-IsAttributeStore clock_control = clock_control-IsAttributeStore
class_of-IsAttributeStore activity_calendar = activity_calendar-IsAttributeStore
class_of-IsAttributeStore special_days_table = special_days_table-IsAttributeStore
class_of-IsAttributeStore tariff_plan = tariff_plan-IsAttributeStore
class_of-IsAttributeStore tariff_table = tariff_table-IsAttributeStore
class_of-IsAttributeStore serial_port = serial_port-IsAttributeStore
class_of-IsAttributeStore infrared_setup = infrared_setup-IsAttributeStore
class_of-IsAttributeStore rs485_setup = rs485_setup-IsAttributeStore
class_of-IsAttributeStore lp_setup = lp_setup-IsAttributeStore
class_of-IsAttributeStore mbus_client = mbus_client-IsAttributeStore
class_of-IsAttributeStore mbus_master = mbus_master-IsAttributeStore
class_of-IsAttributeStore gprs_modem_setup = gprs_modem_setup-IsAttributeStore
class_of-IsAttributeStore auto_connect = auto_connect-IsAttributeStore
class_of-IsAttributeStore lorawan_setup = lorawan_setup-IsAttributeStore
class_of-IsAttributeStore nbiot_setup = nbiot_setup-IsAttributeStore
class_of-IsAttributeStore wisun_setup = wisun_setup-IsAttributeStore
class_of-IsAttributeStore ipv4_setup = ipv4_setup-IsAttributeStore
class_of-IsAttributeStore mac_address_setup = mac_address_setup-IsAttributeStore
class_of-IsAttributeStore ntp_setup = ntp_setup-IsAttributeStore
class_of-IsAttributeStore smtp_setup = smtp_setup-IsAttributeStore
class_of-IsAttributeStore route = route-IsAttributeStore
class_of-IsAttributeStore push_setup = push_setup-IsAttributeStore
class_of-IsAttributeStore association_ln = association_ln-IsAttributeStore
class_of-IsAttributeStore security_setup = security_setup-IsAttributeStore
class_of-IsAttributeStore direct_disconnect = direct_disconnect-IsAttributeStore
class_of-IsAttributeStore sensor_manager = sensor_manager-IsAttributeStore
class_of-IsAttributeStore ups = ups-IsAttributeStore
class_of-IsAttributeStore limiter = limiter-IsAttributeStore
class_of-IsAttributeStore image_transfer = image_transfer-IsAttributeStore
class_of-IsAttributeStore disconnect_control = disconnect_control-IsAttributeStore

-- After any sequence of set requests, each number reads what the table of cells of the class's code
-- makes of the requests and of what it read before, and the answers are those of the table.
pub requests-refine :
    (k : ClassName) (o : State k) (rs : List (ℕ × DlmsValue)) (id : ℕ)
    → let c = class_of k in
      let t = cells_of k in
      (c.get_attribute (requests c rs o) id ≡ reads_after_all t rs id (c.get_attribute o id))
      × (answers_to c rs o ≡ map (λ r. answer (cell_of t r.0) r.1) rs)
requests-refine k o rs id = (
  requests-read (class_of-IsAttributeStore k) rs o id,
  requests-answered (class_of-IsAttributeStore k) rs o,
)

-- Two requests for different numbers leave the same readings in either order.
pub requests-commute :
    (k : ClassName) (o : State k) (a b : ℕ) (v w : DlmsValue) (id : ℕ)
    → a ≢ b
    → let c = class_of k in
      c.get_attribute (requests c ((a, v) ∷ (b, w) ∷ []) o) id
      ≡ c.get_attribute (requests c ((b, w) ∷ (a, v) ∷ []) o) id
requests-commute k o a b v w id h = requests_commute (class_of-IsAttributeStore k) o a b v w id h
