-- ===== src/Agent/Types.antt =====
-- implementation/agent/src/client/ticket/ticketBackendService.ts: the values of the ticket backend,
-- with the fields that the agent reads or sends. Fields that it only passes over are left out.
use tugas_akhir.Common.{ℕ, String, Option, List}

pub data SeatStatus : Type 0 where
  available on_hold sold : SeatStatus

-- A status that the agent compares; `unlisted` is any other value that a response may carry.
pub data OrderStatus : Type 0 where
  waiting_for_payment failed success unlisted : OrderStatus

pub record AreaAvailability : Type 0 where
  pub ticket_package_id : ℕ
  pub ticket_area_id : ℕ
  pub total_seats : ℕ
  pub available_seats : ℕ

pub record TicketPackage : Type 0 where
  pub id : ℕ
  -- `ticketCategory.name`
  pub category_name : String

pub record TicketSale : Type 0 where
  pub id : ℕ
  pub event_id : ℕ
  pub ticket_packages : List TicketPackage

pub record Event : Type 0 where
  pub id : ℕ
  pub ticket_sales : Option (List TicketSale)

pub record TicketSeat : Type 0 where
  pub id : ℕ
  pub seat_number : String
  pub status : SeatStatus
  pub ticket_area_id : ℕ

pub record OrderItemDto : Type 0 where
  pub customer_name : String
  pub customer_email : String
  pub ticket_seat_id : Option ℕ
  pub ticket_area_id : ℕ

pub record PlaceOrderDto : Type 0 where
  pub event_id : ℕ
  pub ticket_sale_id : ℕ
  pub ticket_area_id : ℕ
  pub items : List OrderItemDto

pub record Order : Type 0 where
  pub id : ℕ
  pub status : OrderStatus
  pub ticket_area_id : ℕ
  -- `invoice?.externalId`
  pub invoice_external_id : Option String

pub record IssuedTicket : Type 0 where
  pub id : ℕ
  pub serial_number : String
